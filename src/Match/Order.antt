-- ===== src/Match/Order.antt =====
-- recording_probe.py: the dictionary of candidates and its sorted list.
use ha_reolink_battery.Base.{
  ℕ, ◌≤◌, ◌≡◌, refl, ◌∙◌, inl, inr, Bool, true, false, List, [], ◌∷◌, arith, if◌then◌else◌, All,
  Bool-cases, eq_iff,
}
use ha_reolink_battery.Match.{
  RecordingCandidate, Vod, unreadable, vod, candidate_of, collect, place, precedes, put_candidate,
  rank, same_key,
}

-- The list holds no two candidates of one key.
abbrev pub Unique : List RecordingCandidate → Type 0
Unique [] = Unit {0}
Unique (x ∷ xs) = All (λ y. same_key x y ≡ false) xs × Unique xs

-- Each is at least as near as those after it.
abbrev pub Ranked : List RecordingCandidate → Type 0
Ranked [] = Unit {0}
Ranked (x ∷ xs) = All (λ y. x.distance ≤ y.distance) xs × Ranked xs

same_key_sym : (a b : RecordingCandidate) → same_key a b ≡ same_key b a
unfolding same_key
same_key_sym a b = ground (
  arith,
  eq_iff a.recording.file_name b.recording.file_name,
  eq_iff b.recording.file_name a.recording.file_name,
)

same_key_trans :
    (a b c : RecordingCandidate) → same_key a b ≡ true → same_key a c ≡ false → same_key b c ≡ false
unfolding same_key
same_key_trans a b c h k = ground (
  arith,
  eq_iff a.recording.file_name b.recording.file_name,
  eq_iff b.recording.file_name c.recording.file_name,
  eq_iff a.recording.file_name c.recording.file_name,
)

pub All-mono {ℓ κ} :
    {A : Type ℓ} {P Q : A → Type κ} → ((a : A) → P a → Q a) → (xs : List A) → All P xs → All Q xs
All-mono f [] h = tt
All-mono f (x ∷ xs) h = (f x h.0, All-mono f xs h.1)

module _ {κ} (P : RecordingCandidate → Type κ) where
  All-if :
      (b : Bool) (xs ys : List RecordingCandidate)
      → (b ≡ true → All P xs)
      → (b ≡ false → All P ys)
      → All P (if b then xs else ys)
  All-if true xs ys h k = h refl
  All-if false xs ys h k = k refl

  All-put_candidate :
      (c : RecordingCandidate) (xs : List RecordingCandidate)
      → P c
      → All P xs
      → All P (put_candidate c xs)
  unfolding put_candidate
  All-put_candidate c [] p h = (p, tt)
  All-put_candidate c (x ∷ xs) p h =
      All-if (same_key x c) (c ∷ xs) (x ∷ put_candidate c xs) (λ _. (p, h.1))
        (λ _. (h.0, All-put_candidate c xs p h.1))

  All-place :
      (x : RecordingCandidate) (ys : List RecordingCandidate) → P x → All P ys → All P (place x ys)
  unfolding place
  All-place x [] p h = (p, tt)
  All-place x (y ∷ ys) p h =
      All-if (precedes y x) (y ∷ place x ys) (x ∷ y ∷ ys) (λ _. (h.0, All-place x ys p h.1))
        (λ _. (p, h))

  pub All-rank : (xs : List RecordingCandidate) → All P xs → All P (rank xs)
  unfolding rank
  All-rank [] h = tt
  All-rank (x ∷ xs) h = All-place x (rank xs) h.0 (All-rank xs h.1)

  All-of_place :
      (x : RecordingCandidate) (ys : List RecordingCandidate) → All P (place x ys) → P x × All P ys
  unfolding place
  All-of_place x [] h = (h.0, tt)
  All-of_place x (y ∷ ys) h = elim (Bool-cases (precedes y x)) [
    | inl before ↦
        let g : P y × All P (place x ys) = rw before at h in
        let (p, rest) = All-of_place x ys g.1 in (p, (g.0, rest))
    | inr after ↦ let g : P x × (P y × All P ys) = rw after at h in g
  ]

  pub All-of_rank : (xs : List RecordingCandidate) → All P (rank xs) → All P xs
  unfolding rank
  All-of_rank [] h = tt
  All-of_rank (x ∷ xs) h = let (p, rest) = All-of_place x (rank xs) h in (p, All-of_rank xs rest)

Unique-if :
    (b : Bool) (xs ys : List RecordingCandidate)
    → (b ≡ true → Unique xs)
    → (b ≡ false → Unique ys)
    → Unique (if b then xs else ys)
Unique-if true xs ys h k = h refl
Unique-if false xs ys h k = k refl

Unique-put_candidate :
    (c : RecordingCandidate) (xs : List RecordingCandidate)
    → Unique xs
    → Unique (put_candidate c xs)
unfolding put_candidate
Unique-put_candidate c [] u = (tt, tt)
Unique-put_candidate c (x ∷ xs) u =
    Unique-if (same_key x c) (c ∷ xs) (x ∷ put_candidate c xs)
      (λ same. (All-mono (λ y. same_key_trans x c y same) xs u.0, u.1))
      (λ other. (
        All-put_candidate (λ y. same_key x y ≡ false) c xs other u.0,
        Unique-put_candidate c xs u.1,
      ))

pub Unique-collect :
    (target : ℕ) (vs : List Vod) (xs : List RecordingCandidate)
    → Unique xs
    → Unique (collect target vs xs)
unfolding collect
Unique-collect target [] xs u = u
Unique-collect target (unreadable ∷ vs) xs u = Unique-collect target vs xs u
Unique-collect target (vod r ∷ vs) xs u =
    Unique-collect target vs _ (Unique-put_candidate (candidate_of target r) xs u)

Unique-place :
    (x : RecordingCandidate) (ys : List RecordingCandidate)
    → All (λ y. same_key x y ≡ false) ys
    → Unique ys
    → Unique (place x ys)
unfolding place
Unique-place x [] h u = (tt, tt)
Unique-place x (y ∷ ys) h u =
    Unique-if (precedes y x) (y ∷ place x ys) (x ∷ y ∷ ys)
      (λ _. (
        All-place (λ z. same_key y z ≡ false) x ys (same_key_sym y x ∙ h.0) u.0,
        Unique-place x ys h.1 u.1,
      ))
      (λ _. (h, u))

pub Unique-rank : (xs : List RecordingCandidate) → Unique xs → Unique (rank xs)
unfolding rank
Unique-rank [] u = tt
Unique-rank (x ∷ xs) u =
    Unique-place x (rank xs) (All-rank (λ y. same_key x y ≡ false) xs u.0) (Unique-rank xs u.1)

Ranked-if :
    (b : Bool) (xs ys : List RecordingCandidate)
    → (b ≡ true → Ranked xs)
    → (b ≡ false → Ranked ys)
    → Ranked (if b then xs else ys)
Ranked-if true xs ys h k = h refl
Ranked-if false xs ys h k = k refl

precedes_nearer : (a b : RecordingCandidate) → precedes a b ≡ true → a.distance ≤ b.distance
unfolding precedes
precedes_nearer a b h = ground arith

precedes_no_nearer : (a b : RecordingCandidate) → precedes a b ≡ false → b.distance ≤ a.distance
unfolding precedes
precedes_no_nearer a b h = ground arith

Ranked-place :
    (x : RecordingCandidate) (ys : List RecordingCandidate) → Ranked ys → Ranked (place x ys)
unfolding place
Ranked-place x [] r = (tt, tt)
Ranked-place x (y ∷ ys) r =
    Ranked-if (precedes y x) (y ∷ place x ys) (x ∷ y ∷ ys)
      (λ before. (
        All-place (λ z. y.distance ≤ z.distance) x ys (precedes_nearer y x before) r.0,
        Ranked-place x ys r.1,
      ))
      (λ after.
        let near = precedes_no_nearer y x after in
        ((near, All-mono (λ z far. omega (arith, near, far)) ys r.0), r))

pub Ranked-rank : (xs : List RecordingCandidate) → Ranked (rank xs)
unfolding rank
Ranked-rank [] = tt
Ranked-rank (x ∷ xs) = Ranked-place x (rank xs) (Ranked-rank xs)
