-- ===== src/Base/Ids.antt =====
-- Sets of texts as lists: Python's `set[str]` where only membership is read.
use Prim.Native.Nat.{ℕ, suc, zero}
use Prim.Native.String.{String}
use mathlib.Core.Path.{◌≡◌, refl}
use mathlib.Core.Bool.{Bool, true, false, ◌||◌}
use mathlib.Core.List.{List, [], ◌∷◌, ◌++◌}
use native.Mathlib.Omega.{arith}
use text.Mathlib.Text.{◌==◌}
use text.Mathlib.TextEquality.{eq_iff}
use ha_reolink_battery.Base.Tests.{if◌then◌else◌}
use ha_reolink_battery.Base.Lists.{drop}

-- `x in s`
unfoldable pub contains : String → List String → Bool
contains x [] = false
contains x (y ∷ ys) = y == x || contains x ys

-- `s.discard(x)`
unfoldable pub discard : String → List String → List String
discard x [] = []
discard x (y ∷ ys) = let rest = discard x ys in if y == x then rest else y ∷ rest

-- `s.add(x)`
unfoldable pub insert : String → List String → List String
unfolding contains
insert x ys = if contains x ys then ys else x ∷ ys

pub contains-append :
    (x : String) (ys zs : List String) → contains x (ys ++ zs) ≡ (contains x ys || contains x zs)
unfolding contains
contains-append x [] zs = refl
contains-append x (y ∷ ys) zs = ground (arith, contains-append x ys zs)

pub contains-discard :
    (x y : String) (ys : List String)
    → contains x (discard y ys) ≡ (if y == x then false else contains x ys)
unfolding contains discard
contains-discard x y [] = ground arith
contains-discard x y (z ∷ ys) =
    ground (arith, contains-discard x y ys, eq_iff z x, eq_iff z y, eq_iff y x)

pub contains-insert :
    (x y : String) (ys : List String) → contains x (insert y ys) ≡ (y == x || contains x ys)
unfolding contains insert
contains-insert x y ys = ground (arith, eq_iff y x)

-- No text twice.
abbrev pub Distinct : List String → Type 0
Distinct [] = Unit {0}
Distinct (x ∷ xs) = (contains x xs ≡ false) × Distinct xs

pub Distinct-append :
    (x : String) (xs : List String) → Distinct xs → contains x xs ≡ false → Distinct (xs ++ x ∷ [])
unfolding contains
Distinct-append x [] d h = (refl, tt)
Distinct-append x (y ∷ xs) d h = (
  ground (arith, contains-append y xs (x ∷ []), eq_iff x y, eq_iff y x),
  Distinct-append x xs d.1 (ground arith),
)

pub Distinct-drop : (n : ℕ) (xs : List String) → Distinct xs → Distinct (drop n xs)
Distinct-drop (suc n) (x ∷ xs) d = Distinct-drop n xs d.1
Distinct-drop (suc n) [] d = tt
Distinct-drop zero xs d = d

-- Every text of the first list is in the second.
abbrev pub Within : List String → List String → Type 0
Within xs ys = (x : String) → contains x xs ≡ true → contains x ys ≡ true

pub Distinct-discard : (x : String) (xs : List String) → Distinct xs → Distinct (discard x xs)
unfolding discard
Distinct-discard x [] d = tt
Distinct-discard x (y ∷ xs) d = ground (arith, contains-discard y x xs, Distinct-discard x xs d.1)
