-- ===== src/Worker/Round/Fast.antt =====
-- recording_worker_v138.py: the short recovery window after an interrupted transfer.
use ha_reolink_battery.Base.{ℕ, ◌≤◌, List, All}
use ha_reolink_battery.Worker.State.{Worker}
use ha_reolink_battery.Worker.Round.{Gate, Round}

-- Six seconds at most.
abbrev pub Brief : List ℕ → Type 0
Brief ds = All (λ d. d ≤ 6000000) ds

abbrev BriefApproach : Worker × Gate × List ℕ → Type 0
BriefApproach x = Brief x.2
