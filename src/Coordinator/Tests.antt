-- ===== src/Coordinator/Tests.antt =====
-- coordinator.py: the theorem at a concrete coordinator.
use ha_reolink_battery.Base.{refl, none, some}
use ha_reolink_battery.Queue.Sample.{stored, stored-IsValid}
use ha_reolink_battery.Coordinator.{Coordinator}
use ha_reolink_battery.Coordinator.Saved.{IsSaved, clears, step, step-IsSaved}

abbrev running : Coordinator
running = record { queue = stored; saved = some stored; last_successful_event_time = none }

running-IsSaved : IsSaved running
running-IsSaved = record { valid = stored-IsValid; stored = refl }

step-IsSaved_example : IsSaved (step (clears (some "android_notification")) running)
step-IsSaved_example = step-IsSaved (clears (some "android_notification")) running running-IsSaved
