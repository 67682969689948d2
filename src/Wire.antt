-- ===== src/Wire.antt =====
-- Python's `bytes` as lists of numbers: slices, `find`, and the little-endian integers of
-- `int.from_bytes` and `int.to_bytes`.
use Prim.Native.Char.{code}
use Prim.Native.String.{String}
use ha_reolink_battery.Base.{
  ℕ, zero, suc, ◌+◌, ◌*◌, ◌/◌, ◌%◌, ◌^◌, ◌≤◌, ◌<◌, ◌≡◌, refl, ap, Bool, true, false, ◌&&◌, min,
  List, [], ◌∷◌, ◌++◌, Option, none, some, arith, length, take, drop, nat_eq, ltb, if◌then◌else◌,
}

abbrev pub Bytes : Type 0
Bytes = List ℕ

-- `a == b`
abbrev pub bytes_eq : Bytes → Bytes → Bool
bytes_eq [] [] = true
bytes_eq [] (y ∷ ys) = false
bytes_eq (x ∷ xs) [] = false
bytes_eq (x ∷ xs) (y ∷ ys) = nat_eq x y && bytes_eq xs ys

-- `data[low : low + count]`
abbrev pub slice : ℕ → ℕ → Bytes → Bytes
slice low count data_bytes = take count (drop low data_bytes)

-- `data.startswith(pattern)`
abbrev pub starts_with : Bytes → Bytes → Bool
starts_with pattern_bytes data_bytes =
    bytes_eq (take (length pattern_bytes) data_bytes) pattern_bytes

unfoldable pub next_index : Option ℕ → Option ℕ
next_index none = none
next_index (some n) = some (suc n)

-- `data.find(pattern)` for a pattern of at least one byte, with `none` for -1
unfoldable pub find : Bytes → Bytes → Option ℕ
unfolding next_index
find pattern_bytes [] = none
find pattern_bytes (x ∷ xs) =
    let later = find pattern_bytes xs in
    if starts_with pattern_bytes (x ∷ xs) then some 0 else next_index later

-- `int.from_bytes(data, "little")`
abbrev pub from_bytes : Bytes → ℕ
from_bytes [] = 0
from_bytes (x ∷ xs) = x + 256 * from_bytes xs

-- `value.to_bytes(count, "little")` for a value that fits
abbrev pub to_bytes : ℕ → ℕ → Bytes
to_bytes zero value = []
to_bytes (suc count) value = value % 256 ∷ to_bytes count (value / 256)

-- `text.encode("ascii")`
abbrev pub encoded : String → Bytes
encoded String.[] = []
encoded (String.◌∷◌ c text) = code c ∷ encoded text

decimal_digits : ℕ → ℕ → Bytes
decimal_digits zero value = []
decimal_digits (suc fuel) value =
    let front = decimal_digits fuel (value / 10) in
    if ltb value 10 then (b'0' + value) ∷ [] else front ++ ((b'0' + value % 10) ∷ [])

-- `str(value)` as bytes; a number has fewer digits than it counts, and one more.
unfoldable pub decimal : ℕ → Bytes
unfolding decimal_digits
decimal value = decimal_digits (suc value) value

pub bytes_eq_sound : (a b : Bytes) → bytes_eq a b ≡ true → a ≡ b
bytes_eq_sound [] [] h = refl
bytes_eq_sound [] (y ∷ ys) h = absurd (ground arith)
bytes_eq_sound (x ∷ xs) [] h = absurd (ground arith)
bytes_eq_sound (x ∷ xs) (y ∷ ys) h =
    let same : x ≡ y = ground (arith, h) in cc (same, bytes_eq_sound xs ys (ground (arith, h)))

pub bytes_eq_refl : (a : Bytes) → bytes_eq a a ≡ true
bytes_eq_refl [] = refl
bytes_eq_refl (x ∷ xs) = ground (arith, bytes_eq_refl xs)

pub take-append : (n : ℕ) (a b : Bytes) → n ≤ length a → take n (a ++ b) ≡ take n a
take-append zero a b h = refl
take-append (suc n) [] b h = absurd (omega arith)
take-append (suc n) (x ∷ a) b h = ap (λ t. x ∷ t) (take-append n a b (omega arith))

pub drop-append : (n : ℕ) (a b : Bytes) → n ≤ length a → drop n (a ++ b) ≡ drop n a ++ b
drop-append zero a b h = refl
drop-append (suc n) [] b h = absurd (omega arith)
drop-append (suc n) (x ∷ a) b h = drop-append n a b (omega arith)

pub take_exact : (a b : Bytes) → take (length a) (a ++ b) ≡ a
take_exact [] b = refl
take_exact (x ∷ a) b = ap (λ t. x ∷ t) (take_exact a b)

pub drop_exact : (a b : Bytes) → drop (length a) (a ++ b) ≡ b
drop_exact [] b = refl
drop_exact (x ∷ a) b = drop_exact a b

pub length-take-le : (n : ℕ) (a : Bytes) → length (take n a) ≤ n
length-take-le zero a = omega arith
length-take-le (suc n) [] = omega arith
length-take-le (suc n) (x ∷ a) = omega (arith, length-take-le n a)

pub length-take : (n : ℕ) (a : Bytes) → length (take n a) ≡ min n (length a)
length-take zero a = omega arith
length-take (suc n) [] = omega arith
length-take (suc n) (x ∷ a) = omega (arith, length-take n a)

pub length-take-all : (n : ℕ) (a : Bytes) → length (take n a) ≤ length a
length-take-all zero a = omega arith
length-take-all (suc n) [] = omega arith
length-take-all (suc n) (x ∷ a) = omega (arith, length-take-all n a)

pub length-to_bytes : (count value : ℕ) → length (to_bytes count value) ≡ count
length-to_bytes zero value = refl
length-to_bytes (suc count) value = omega (arith, length-to_bytes count (value / 256))

pub from_bytes-to_bytes :
    (count value : ℕ) → value < 256 ^ count → from_bytes (to_bytes count value) ≡ value
from_bytes-to_bytes zero value h = omega (arith, h)
from_bytes-to_bytes (suc count) value h =
    omega (arith, from_bytes-to_bytes count (value / 256) (omega (arith, h)))
