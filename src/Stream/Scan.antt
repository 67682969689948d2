-- ===== src/Stream/Scan.antt =====
-- The search for the earliest magic, and one scan from left to right that finds the same place;
-- how the scan reads a buffer that is continued by later bytes.
use ha_reolink_battery.Base.{
  ℕ, ◌≤◌, ◌≡◌, refl, sym, ap, ◌∙◌, inl, inr, Bool, true, false, ◌||◌, List, [], ◌∷◌, ◌++◌, Option,
  none, some, arith, length, take, take_last, take_last_all, drop, any, All, Bool-cases, ltb,
  nat_eq, ◌&&◌, if◌then◌else◌,
}
use ha_reolink_battery.Wire.{
  Bytes, bytes_eq, starts_with, find, next_index, bytes_eq_sound, take-append, length-take-all,
}
use ha_reolink_battery.Stream.{
  all_magics, least, least_offset, earliest_magic_offset, Turn, halt, aligned_turn, turn_at, turn,
}

-- The first position at which one of the patterns starts.
unfoldable pub scan : List Bytes → Bytes → Option ℕ
unfolding next_index
scan magics [] = none
scan magics (x ∷ buffer) =
    let later = scan magics buffer in
    if any (λ m. starts_with m (x ∷ buffer)) magics then some 0 else next_index later

pick_least :
    (s t : Bool) (a b : Option ℕ)
    → least (if s then some 0 else next_index a) (if t then some 0 else next_index b)
      ≡ (if s || t then some 0 else next_index (least a b))
unfolding least next_index
pick_least true true a b = refl
pick_least true false a none = refl
pick_least true false a (some b) = ground arith
pick_least false true none b = refl
pick_least false true (some a) b = ground arith
pick_least false false none b = refl
pick_least false false (some a) none = refl
pick_least false false (some a) (some b) = ground arith

least_offset-nil : (magics : List Bytes) → least_offset magics [] ≡ none
unfolding least_offset least find
least_offset-nil [] = refl
least_offset-nil (m ∷ magics) = least_offset-nil magics

least_offset-cons :
    (magics : List Bytes) (x : ℕ) (buffer : Bytes)
    → least_offset magics (x ∷ buffer) ≡ (
        if any (λ m. starts_with m (x ∷ buffer)) magics
        then some 0
        else next_index (least_offset magics buffer))
unfolding least_offset find next_index
least_offset-cons [] x buffer = refl
least_offset-cons (m ∷ magics) x buffer =
    ap (least (find m (x ∷ buffer))) (least_offset-cons magics x buffer)
    ∙ pick_least (starts_with m (x ∷ buffer)) (any (λ m. starts_with m (x ∷ buffer)) magics)
        (find m buffer) (least_offset magics buffer)

least_offset-scan :
    (magics : List Bytes) (buffer : Bytes) → least_offset magics buffer ≡ scan magics buffer
unfolding scan
least_offset-scan magics [] = least_offset-nil magics
least_offset-scan magics (x ∷ buffer) =
    least_offset-cons magics x buffer
    ∙ ap
        (λ later. if any (λ m. starts_with m (x ∷ buffer)) magics then some 0 else next_index later)
        (least_offset-scan magics buffer)

-- The least of the offsets at which the 24 magics are found is the first position at which one of
-- them starts, and there is none exactly if none starts anywhere.
pub earliest_magic_offset-scan :
    (buffer : Bytes) → earliest_magic_offset buffer ≡ scan all_magics buffer
earliest_magic_offset-scan buffer = least_offset-scan all_magics buffer

-- Some magic stands at the start.
unfoldable pub at_magic : Bytes → Bool
at_magic buffer = any (λ m. starts_with m buffer) all_magics

-- The buffer from the first magic on.
unfoldable pub seek : Bytes → Option Bytes
seek [] = none
seek (x ∷ buffer) = if at_magic (x ∷ buffer) then some (x ∷ buffer) else seek buffer

unfoldable pub seek_turn : Bytes → Option Bytes → Turn
seek_turn buffer none = halt (take_last 3 buffer)
seek_turn buffer (some rest) = aligned_turn rest

abbrev drop_to : Bytes → Option ℕ → Option Bytes
drop_to buffer none = none
drop_to buffer (some k) = some (drop k buffer)

drop_to-next_index :
    (x : ℕ) (buffer : Bytes) (o : Option ℕ) → drop_to (x ∷ buffer) (next_index o) ≡ drop_to buffer o
unfolding next_index
drop_to-next_index x buffer none = refl
drop_to-next_index x buffer (some k) = refl

drop_to-if :
    (b : Bool) (x : ℕ) (buffer : Bytes) (o : Option ℕ) (r : Option Bytes)
    → drop_to buffer o ≡ r
    → drop_to (x ∷ buffer) (if b then some 0 else next_index o)
      ≡ (if b then some (x ∷ buffer) else r)
drop_to-if true x buffer o r h = refl
drop_to-if false x buffer o r h = drop_to-next_index x buffer o ∙ h

drop_to-scan : (buffer : Bytes) → drop_to buffer (scan all_magics buffer) ≡ seek buffer
unfolding scan seek at_magic
drop_to-scan [] = refl
drop_to-scan (x ∷ buffer) =
    drop_to-if (at_magic (x ∷ buffer)) x buffer (scan all_magics buffer) (seek buffer)
      (drop_to-scan buffer)

keep_three :
    (buffer : Bytes)
    → (if ltb 3 (length buffer) then take_last 3 buffer else buffer) ≡ take_last 3 buffer
keep_three buffer = elim (Bool-cases (ltb 3 (length buffer))) [
  | inl h ↦ rw h refl
  | inr h ↦ rw h (sym (take_last_all 3 buffer (ground (arith, h))))
]

turn_at-drop_to :
    (buffer : Bytes) (o : Option ℕ) → turn_at buffer o ≡ seek_turn buffer (drop_to buffer o)
unfolding turn_at seek_turn
turn_at-drop_to buffer none = ap halt (keep_three buffer)
turn_at-drop_to buffer (some k) = refl

pub turn-seek : (buffer : Bytes) → turn buffer ≡ seek_turn buffer (seek buffer)
unfolding turn seek seek_turn
turn-seek [] = refl
turn-seek (x ∷ buffer) =
    turn_at-drop_to (x ∷ buffer) (earliest_magic_offset (x ∷ buffer))
    ∙ ap (λ o. seek_turn (x ∷ buffer) (drop_to (x ∷ buffer) o))
        (earliest_magic_offset-scan (x ∷ buffer))
    ∙ ap (seek_turn (x ∷ buffer)) (drop_to-scan (x ∷ buffer))

-- The rest is about a buffer `a` that later bytes `b` continue.
module _ (b : Bytes) where
  starts_with-append :
      (m a : Bytes) → length m ≤ length a → starts_with m (a ++ b) ≡ starts_with m a
  starts_with-append m a h = ap (λ t. bytes_eq t m) (take-append (length m) a b h)

  any_starts-append :
      (magics : List Bytes) (a : Bytes)
      → All (λ (m : Bytes). length m ≡ 4) magics
      → 4 ≤ length a
      → any (λ m. starts_with m (a ++ b)) magics ≡ any (λ m. starts_with m a) magics
  any_starts-append [] a w h = refl
  any_starts-append (m ∷ magics) a w h =
      cc (starts_with-append m a (omega (arith, w.0)), any_starts-append magics a w.1 h)

starts_with_long : (m a : Bytes) → starts_with m a ≡ true → length m ≤ length a
starts_with_long m a h =
    omega (arith, length-take-all (length m) a, ap length (bytes_eq_sound (take (length m) a) m h))

any_starts_long :
    (magics : List Bytes) (a : Bytes)
    → All (λ (m : Bytes). length m ≡ 4) magics
    → any (λ m. starts_with m a) magics ≡ true
    → 4 ≤ length a
any_starts_long [] a w h = absurd (ground (arith, h))
any_starts_long (m ∷ magics) a w h = elim (Bool-cases (starts_with m a)) [
  | inl here ↦ omega (arith, w.0, starts_with_long m a here)
  | inr not_here ↦ any_starts_long magics a w.1 (ground (arith, h, not_here))
]

pub length-all_magics : All (λ (m : Bytes). length m ≡ 4) all_magics
length-all_magics = tests_of all_magics refl
  where
    check : List Bytes → Bool
    check [] = true
    check (m ∷ ms) = nat_eq (length m) 4 && check ms

    tests_of : (ms : List Bytes) → check ms ≡ true → All (λ (m : Bytes). length m ≡ 4) ms
    tests_of [] h = tt
    tests_of (m ∷ ms) h = (ground (arith, h), tests_of ms (ground (arith, h)))

pub at_magic_long : (a : Bytes) → at_magic a ≡ true → 4 ≤ length a
unfolding at_magic
at_magic_long a = any_starts_long all_magics a length-all_magics

pub at_magic-append : (a b : Bytes) → 4 ≤ length a → at_magic (a ++ b) ≡ at_magic a
unfolding at_magic
at_magic-append a b h = any_starts-append b all_magics a length-all_magics h
