-- ===== src/Match/Select.antt =====
-- recording_probe.py: `select_recording_candidate` against a description of the right choice.
use ha_reolink_battery.Base.{ℕ, ◌≤◌, ◌<◌, ◌≡◌, ◌⊎◌, Bool, false, Option, none, some, List, All}
use ha_reolink_battery.Match.{RecordingCandidate, same_key}

-- No candidate is nearer than `a`, and one of another key is as near.
abbrev pub Tied : RecordingCandidate → List RecordingCandidate → Type 0
Tied a cs =
    All (λ c. a.distance ≤ c.distance) cs
    × ((b : RecordingCandidate) × (same_key a b ≡ false)
        × (b.distance ≡ a.distance)
        × ¬ All (λ c. ¬ (c ≡ b)) cs)

-- A choice lies within the tolerance, is one of the candidates, and every candidate of another
-- key is strictly farther. Without one all candidates are beyond the tolerance, or the nearest are
-- tied.
abbrev pub Best : ℕ → List RecordingCandidate → Option RecordingCandidate → Type 0
Best tolerance cs none =
    All (λ c. tolerance < c.distance) cs ⊎ ((a : RecordingCandidate) × Tied a cs)
Best tolerance cs (some a) =
    (a.distance ≤ tolerance)
    × All (λ c. (same_key a c ≡ false) → a.distance < c.distance) cs
    × ¬ All (λ c. ¬ (c ≡ a)) cs
