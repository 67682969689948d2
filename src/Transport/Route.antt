-- ===== src/Transport/Route.antt =====
-- The route that `_linux_route_interface` picks.
use ha_reolink_battery.Base.{
  ℕ, ◌≤◌, ◌≡◌, refl, sym, subst, ◌⊎◌, inl, inr, Bool, true, false, String, Option, none, some, List,
  [], ◌∷◌, arith, Bool-cases,
}
use ha_reolink_battery.Transport.{RouteLine, bit_count, leads_to, is_better, improve, best_route}

-- The line is among those that could be read.
abbrev pub Among : RouteLine → List (Option RouteLine) → Type 0
Among line [] = ⊥
Among line (none ∷ lines) = Among line lines
Among line (some x ∷ lines) = (x ≡ line) ⊎ Among line lines

-- The first line is no worse than the second: its prefix is longer, or as long with no greater
-- metric.
abbrev pub NoWorse : RouteLine → RouteLine → Type 0
NoWorse best line =
    (bit_count line.mask ≤ bit_count best.mask)
    × (bit_count line.mask ≡ bit_count best.mask → best.metric ≤ line.metric)

-- Every line of the list that leads to the target is no better than `best`.
abbrev pub Beats : ℕ → RouteLine → List (Option RouteLine) → Type 0
Beats target best lines =
    (line : RouteLine) → Among line lines → leads_to target line ≡ true → NoWorse best line

-- What the choice means.
abbrev pub IsBest : ℕ → List (Option RouteLine) → Option RouteLine → Type 0
IsBest target lines none = (line : RouteLine) → Among line lines → leads_to target line ≡ false
IsBest target lines (some best) =
    Among best lines × (leads_to target best ≡ true) × Beats target best lines

NoWorse-of_worse :
    (text_above : String → String → Bool) (line best : RouteLine)
    → is_better text_above line best ≡ false
    → NoWorse best line
unfolding is_better
NoWorse-of_worse text_above line best h = (ground (arith, h), λ e. ground (arith, h, e))

NoWorse-of_better :
    (text_above : String → String → Bool) (line best : RouteLine)
    → is_better text_above line best ≡ true
    → NoWorse line best
unfolding is_better
NoWorse-of_better text_above line best h = (ground (arith, h), λ e. ground (arith, h, e))

NoWorse-trans : (a b c : RouteLine) → NoWorse a b → NoWorse b c → NoWorse a c
NoWorse-trans a b c p q = (
  omega (arith, p.0, q.0),
  λ e. omega (arith, p.1 (omega (arith, p.0, q.0, e)), q.1 (omega (arith, p.0, q.0, e))),
)

module _ (text_above : String → String → Bool) (target : ℕ) where
  -- What the best line so far gives, for the lines that are left.
  abbrev Chosen : List (Option RouteLine) → Option RouteLine → Option RouteLine → Type 0
  Chosen lines none none = (line : RouteLine) → Among line lines → leads_to target line ≡ false
  Chosen lines (some best) none = ⊥
  Chosen lines none (some r) = Among r lines × (leads_to target r ≡ true) × Beats target r lines
  Chosen lines (some best) (some r) =
      ((r ≡ best) ⊎ (Among r lines × (leads_to target r ≡ true)))
      × NoWorse r best
      × Beats target r lines

  Chosen-skip :
      (line : RouteLine) (lines : List (Option RouteLine)) (best result : Option RouteLine)
      → leads_to target line ≡ false
      → Chosen lines best result
      → Chosen (some line ∷ lines) best result
  Chosen-skip line lines none none off h =
      λ x i. elim i [ inl e ↦ rw (← e) off | inr later ↦ h x later ]
  Chosen-skip line lines (some best) none off h = h
  Chosen-skip line lines none (some r) off (there, leads, beats) = (
    inr there,
    leads,
    λ x i on. elim i [
      | inl e ↦ absurd (ground (arith, on, subst (λ y. leads_to target y ≡ false) e off))
      | inr later ↦ beats x later on
    ],
  )
  Chosen-skip line lines (some best) (some r) off (origin, over, beats) = (
    elim origin [ inl e ↦ inl e | inr (there, leads) ↦ inr (inr there, leads) ],
    over,
    λ x i on. elim i [
      | inl e ↦ absurd (ground (arith, on, subst (λ y. leads_to target y ≡ false) e off))
      | inr later ↦ beats x later on
    ],
  )

  -- The new line is kept as the best.
  Chosen-keep :
      (line : RouteLine) (lines : List (Option RouteLine)) (best result : Option RouteLine)
      → leads_to target line ≡ true
      → ((b : RouteLine) → best ≡ some b → NoWorse line b)
      → Chosen lines (some line) result
      → Chosen (some line ∷ lines) best result
  Chosen-keep line lines best none on over h = elim h [ ]
  Chosen-keep line lines none (some r) on over (origin, above, beats) = (
    elim origin [ inl e ↦ inl (sym e) | inr (there, leads) ↦ inr there ],
    elim origin [
      | inl e ↦ subst (λ y. leads_to target y ≡ true) (sym e) on
      | inr (there, leads) ↦ leads
    ],
    λ x i leads. elim i [ inl e ↦ subst (NoWorse r) e above | inr later ↦ beats x later leads ],
  )
  Chosen-keep line lines (some b) (some r) on over (origin, above, beats) = (
    elim origin [
      | inl e ↦ inr (inl (sym e), subst (λ y. leads_to target y ≡ true) (sym e) on)
      | inr (there, leads) ↦ inr (inr there, leads)
    ],
    NoWorse-trans r line b above (over b refl),
    λ x i leads. elim i [ inl e ↦ subst (NoWorse r) e above | inr later ↦ beats x later leads ],
  )

  -- The new line is dropped for the best one.
  Chosen-drop :
      (line b : RouteLine) (lines : List (Option RouteLine)) (result : Option RouteLine)
      → NoWorse b line
      → Chosen lines (some b) result
      → Chosen (some line ∷ lines) (some b) result
  Chosen-drop line b lines none over h = h
  Chosen-drop line b lines (some r) over (origin, above, beats) = (
    elim origin [ inl e ↦ inl e | inr (there, leads) ↦ inr (inr there, leads) ],
    above,
    λ x i leads. elim i [
      | inl e ↦ subst (NoWorse r) e (NoWorse-trans r b line above over)
      | inr later ↦ beats x later leads
    ],
  )

  best_route-Chosen :
      (lines : List (Option RouteLine)) (best : Option RouteLine)
      → Chosen lines best (best_route text_above target lines best)
  unfolding best_route improve
  best_route-Chosen [] none = λ line i. elim i [ ]
  best_route-Chosen [] (some b) =
      (inl refl, (omega arith, λ e. omega arith), λ line i on. elim i [ ])
  best_route-Chosen (none ∷ lines) none = best_route-Chosen lines none
  best_route-Chosen (none ∷ lines) (some b) = best_route-Chosen lines (some b)
  best_route-Chosen (some line ∷ lines) none = elim (Bool-cases (leads_to target line)) [
    | inr off ↦
        rw (off, best_route) (Chosen-skip line lines none _ off (best_route-Chosen lines none))
    | inl on ↦
        rw (on, best_route)
          (Chosen-keep line lines none _ on (λ b h. cc h) (best_route-Chosen lines (some line)))
  ]
  best_route-Chosen (some line ∷ lines) (some b) = elim (Bool-cases (leads_to target line)) [
    | inr off ↦
        rw (off, best_route)
          (Chosen-skip line lines (some b) _ off (best_route-Chosen lines (some b)))
    | inl on ↦ elim (Bool-cases (is_better text_above line b)) [
      | inl better ↦
          rw (on, better, best_route)
            (Chosen-keep line lines (some b) _ on
              (λ c h.
                let e : b ≡ c = cc h in
                subst (NoWorse line) e (NoWorse-of_better text_above line b better))
              (best_route-Chosen lines (some line)))
      | inr worse ↦
          rw (on, worse, best_route)
            (Chosen-drop line b lines _ (NoWorse-of_worse text_above line b worse)
              (best_route-Chosen lines (some b)))
    ]
  ]

-- Of the lines that can be read and lead to the camera, the chosen one has the longest prefix, and
-- no smaller metric stands beside as long a prefix; none is chosen only if no line leads there.
pub best_route-IsBest :
    (text_above : String → String → Bool) (target : ℕ) (lines : List (Option RouteLine))
    → IsBest target lines (best_route text_above target lines none)
best_route-IsBest text_above target lines =
    of_chosen (best_route text_above target lines none)
      (best_route-Chosen text_above target lines none)
  where
    of_chosen :
        (o : Option RouteLine) → Chosen text_above target lines none o → IsBest target lines o
    of_chosen none h = h
    of_chosen (some r) h = h
