-- ===== src/Match/Tests.antt =====
-- recording_probe.py: the choice among two recordings.
use ha_reolink_battery.Base.{List, [], ◌∷◌}
use ha_reolink_battery.Match.{Vod, unreadable, vod}
use ha_reolink_battery.Match.Sample.{clip}

abbrev listed : List Vod
listed = vod (clip "near" 100 200) ∷ unreadable ∷ vod (clip "far" 5000 6000) ∷ []
