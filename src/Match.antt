-- ===== src/Match.antt =====
-- custom_components/reolink_battery/recording_probe.py: the choice of the SD recording that
-- belongs to a notification. Times are microseconds on the camera's wall clock, which is what
-- `replace(tzinfo=None)` leaves.
mod Order
pub mod Select
pub mod Sample
mod Tests
use Prim.Native.Nat.{Ordering}
use Prim.Native.String.{compare}
use ha_reolink_battery.Base.{
  ℕ, ◌-◌, ◌*◌, String, Bool, true, false, not, ◌&&◌, ◌||◌, Option, none, some, List, [], ◌∷◌, ◌==◌,
  if◌then◌else◌, ltb, leb, nat_eq, ℤ,
}
use ha_reolink_battery.Python.Time.{second}

pub record RecordingMetadata : Type 0 where
  pub file_name : String
  pub start_time : ℕ
  pub end_time : ℕ
  pub size : ℤ
  pub record_id : String
  pub xml_file_name : String
  pub display_name : String
  pub channel_id : Option ℤ
  pub stream_type : String
  pub file_type : String
  pub record_type : String

-- A recording as the list gives it; one whose attributes cannot be read is passed over.
pub data Vod : Type 0 where
  unreadable : Vod
  vod : RecordingMetadata → Vod

-- The recording's fields with its distance, in microseconds.
pub record RecordingCandidate : Type 0 where
  pub recording : RecordingMetadata
  pub distance : ℕ

abbrev pub default_match_tolerance : ℕ
default_match_tolerance = 120 * second

unfoldable pub interval_distance : ℕ → ℕ → ℕ → ℕ
interval_distance target start end =
    if leb start target && leb target end
    then 0
    else if ltb target start
    then start - target
    else target - end

-- The key `(name, start, end)` of the dictionary `unique`.
unfoldable pub same_key : RecordingCandidate → RecordingCandidate → Bool
same_key a b =
    a.recording.file_name == b.recording.file_name
    && nat_eq a.recording.start_time b.recording.start_time
    && nat_eq a.recording.end_time b.recording.end_time

-- `unique[key] = candidate`
unfoldable pub put_candidate :
    RecordingCandidate → List RecordingCandidate → List RecordingCandidate
put_candidate c [] = c ∷ []
put_candidate c (x ∷ xs) =
    let rest = put_candidate c xs in if same_key x c then c ∷ xs else x ∷ rest

unfoldable pub candidate_of : ℕ → RecordingMetadata → RecordingCandidate
candidate_of target r = record {
  recording = r;
  distance = interval_distance target r.start_time r.end_time;
}

-- The loop over the files.
unfoldable pub collect : ℕ → List Vod → List RecordingCandidate → List RecordingCandidate
collect target [] unique = unique
collect target (unreadable ∷ vs) unique = collect target vs unique
collect target (vod r ∷ vs) unique =
    collect target vs (put_candidate (candidate_of target r) unique)

abbrev pub comes_before : String → String → Bool
comes_before a b = elim (compare a b) [ Ordering.lt ↦ true | _ ↦ false ]

-- The order of the sort key `(distance_seconds, start_time, file_name)`.
unfoldable pub precedes : RecordingCandidate → RecordingCandidate → Bool
precedes a b =
    ltb a.distance b.distance
    || (nat_eq a.distance b.distance
        && (ltb a.recording.start_time b.recording.start_time
            || (nat_eq a.recording.start_time b.recording.start_time
                && comes_before a.recording.file_name b.recording.file_name)))

unfoldable pub place : RecordingCandidate → List RecordingCandidate → List RecordingCandidate
place x [] = x ∷ []
place x (y ∷ ys) = let rest = place x ys in if precedes y x then y ∷ rest else x ∷ y ∷ ys

-- `sorted`, which is stable
unfoldable pub rank : List RecordingCandidate → List RecordingCandidate
rank [] = []
rank (x ∷ xs) = place x (rank xs)

unfoldable pub pick : ℕ → List RecordingCandidate → Option RecordingCandidate
pick tolerance [] = none
pick tolerance (x ∷ []) = if ltb tolerance x.distance then none else some x
pick tolerance (x ∷ y ∷ ys) =
    if ltb tolerance x.distance
    then none
    else if nat_eq y.distance x.distance && not (same_key x y)
    then none
    else some x

unfoldable pub select_recording_candidate : ℕ → ℕ → List Vod → Option RecordingCandidate
select_recording_candidate tolerance target files = pick tolerance (rank (collect target files []))
