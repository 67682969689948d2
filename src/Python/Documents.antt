-- ===== src/Python/Documents.antt =====
-- JSON documents as Python reads them, with `isinstance` tests, `get`, and truth.
use ha_reolink_battery.Base.{
  ℕ, ◌≡◌, refl, String, Bool, true, false, not, Option, none, some, List, [], ◌∷◌, ◌==◌, ap,
  if◌then◌else◌, nat_eq, ℤ, is_zero,
}

-- `float n` is n millionths; finer and negative floating-point values are not modelled.
mutual
  pub data Json : Type 0 where
    null : Json
    bool : Bool → Json
    int : ℤ → Json
    float : ℕ → Json
    str : String → Json
    arr : Items → Json
    obj : Fields → Json

  pub data Items : Type 0 where
    nil : Items
    cons : Json → Items → Items

  pub data Fields : Type 0 where
    end : Fields
    field : String → Json → Fields → Fields

abbrev pub items : Items → List Json
items nil = []
items (cons j js) = j ∷ items js

abbrev pub of_items : List Json → Items
of_items [] = nil
of_items (j ∷ js) = cons j (of_items js)

pub items-of_items : (js : List Json) → items (of_items js) ≡ js
items-of_items [] = refl
items-of_items (j ∷ js) = ap (◌∷◌ j) (items-of_items js)

-- `data.get(key)`, where a missing key and `null` differ.
abbrev pub get : String → Fields → Option Json
get k end = none
get k (field j v fs) = if j == k then some v else get k fs

-- `bool(value)`
abbrev pub truthy : Json → Bool
truthy null = false
truthy (bool b) = b
truthy (int n) = not (is_zero n)
truthy (float n) = not (nat_eq n 0)
truthy (str s) = not (s == "")
truthy (arr nil) = false
truthy (arr (cons _ _)) = true
truthy (obj end) = false
truthy (obj (field _ _ _)) = true

-- `data.get(key)` with `None` for a missing key.
abbrev pub get_or_null : String → Fields → Json
get_or_null k fs = elim (get k fs) [ none ↦ null | some v ↦ v ]
