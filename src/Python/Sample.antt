-- ===== src/Python/Sample.antt =====
-- A concrete runtime, for the tests: a stamp is written as a letter for its kind and then one
-- stroke for each microsecond.
use Prim.Native.Char.{code}
use ha_reolink_battery.Base.{
  ℕ, zero, suc, String, ◌≡◌, refl, ap, inl, inr, false, Option, none, some, [], ◌∷◌, if◌then◌else◌,
  nat_eq, ◌==◌, eq_iff, Bool-cases,
}
use ha_reolink_battery.Python.{Runtime, IsIso}
use ha_reolink_battery.Python.Time.{Stamp, naive, aware}

strokes : ℕ → String
strokes zero = String.[]
strokes (suc n) = String.◌∷◌ "i" (strokes n)

count : String → ℕ
count String.[] = 0
count (String.◌∷◌ c s) = suc (count s)

unfoldable pub write : Stamp → String
unfolding strokes
write (naive t) = String.◌∷◌ "n" (strokes t)
write (aware t) = String.◌∷◌ "a" (strokes t)

unfoldable pub read : String → Option Stamp
unfolding count
read String.[] = none
read (String.◌∷◌ c s) =
    if nat_eq (code c) b'n' then some (naive (count s)) else some (aware (count s))

abbrev pub sample : Runtime
sample = record {
  fromisoformat = read;
  isoformat = write;
  show = λ j. "?";
  parse_int = λ s. none;
  replace_z = λ s. s;
  upper = λ s. s;
  strip = λ s. s;
  split_commas = λ s. s ∷ [];
}

count-strokes : (n : ℕ) → count (strokes n) ≡ n
unfolding count strokes
count-strokes zero = refl
count-strokes (suc n) = ap suc (count-strokes n)

read-write : (s : Stamp) → read (write s) ≡ some s
unfolding read write
read-write (naive t) = ap (λ n. some (naive n)) (count-strokes t)
read-write (aware t) = ap (λ n. some (aware n)) (count-strokes t)

write_not_empty : (s : Stamp) → (write s == "") ≡ false
unfolding write
write_not_empty (naive t) = elim (Bool-cases (write (naive t) == "")) [
  | inl e ↦ cc ((eq_iff (write (naive t)) "").0 e)
  | inr e ↦ e
]
write_not_empty (aware t) = elim (Bool-cases (write (aware t) == "")) [
  | inl e ↦ cc ((eq_iff (write (aware t)) "").0 e)
  | inr e ↦ e
]

pub sample-IsIso : IsIso sample
sample-IsIso = record { reads_back = read-write; has_no_z = λ s. refl; is_text = write_not_empty }
