-- ===== src/Stream/Chunks.antt =====
-- The loop of the media parser as a whole: it ends, and where the network cuts the stream makes no
-- difference.
use ha_reolink_battery.Base.{
  ℕ, zero, suc, ◌<◌, ◌≡◌, refl, sym, ap, ◌∙◌, subst, inl, inr, List, [], ◌∷◌, ◌++◌, Option, none,
  some, arith, length, length-append, take_last, Option-cases, Bool-cases,
}
use ha_reolink_battery.Wire.{Bytes}
use ha_reolink_battery.Stream.{
  Packet, halt, skip, took, turn, aligned_turn, loop, parse_packets, Parsed, prepend,
}
use ha_reolink_battery.Stream.Scan.{at_magic, seek, seek_turn, turn-seek}
use ha_reolink_battery.Stream.Resume.{
  Extends, seek-append, seek-take_last, take_last-take_last, aligned_turn-Extends,
}
use ha_reolink_battery.Stream.Progress.{
  longest_packet, Advances, aligned_turn-Advances, Shortens, turn-Shortens, Turn-cases,
}

-- The loop went on to an end that keeps less than one packet.
abbrev pub Ends : Option Parsed → Type 0
Ends o = (parsed : Parsed) × (o ≡ some parsed) × (length parsed.1 < longest_packet)

Ends-prepend : (p : Packet) (o : Option Parsed) → Ends o → Ends (prepend p o)
Ends-prepend p o ((packets, rest), e, h) = ((p ∷ packets, rest), ap (prepend p) e, h)

loop-Ends : (f : ℕ) (a : Bytes) → length a < f → Ends (loop f a)
unfolding loop
loop-Ends zero a h = absurd (omega (arith, h))
loop-Ends (suc f) a h = elim (Turn-cases (turn a)) [
  | inl (r, e) ↦ rw (e, loop) (([], r), refl, (subst (Shortens a) e (turn-Shortens a)).1)
  | inr (inl (r, e)) ↦
      rw (e, loop) (loop-Ends f r (omega (arith, h, subst (Shortens a) e (turn-Shortens a))))
  | inr (inr (p, r, e)) ↦
      rw (e, loop)
        (Ends-prepend p (loop f r)
          (loop-Ends f r (omega (arith, h, subst (Shortens a) e (turn-Shortens a)))))
]

-- On every buffer the parser's loop ends within one turn for each byte and one more, and what it
-- keeps for the next bytes is shorter than the longest packet, 4 MiB + 64 KiB + 32 bytes.
pub parse_packets-Ends : (buffer : Bytes) → Ends (parse_packets buffer)
parse_packets-Ends buffer = loop-Ends (suc (length buffer)) buffer (omega arith)

loop_enough : (f g : ℕ) (a : Bytes) → length a < f → length a < g → loop f a ≡ loop g a
unfolding loop
loop_enough zero g a p q = absurd (omega (arith, p))
loop_enough (suc f) zero a p q = absurd (omega (arith, q))
loop_enough (suc f) (suc g) a p q = elim (Turn-cases (turn a)) [
  | inl (r, e) ↦ rw (e, loop) refl
  | inr (inl (r, e)) ↦
      let less = subst (Shortens a) e (turn-Shortens a) in
      rw (e, loop) (loop_enough f g r (omega (arith, p, less)) (omega (arith, q, less)))
  | inr (inr (k, r, e)) ↦
      let less = subst (Shortens a) e (turn-Shortens a) in
      rw (e, loop)
        (ap (prepend k) (loop_enough f g r (omega (arith, p, less)) (omega (arith, q, less))))
]

loop_skip : (f : ℕ) (a r : Bytes) → turn a ≡ skip r → loop (suc f) a ≡ loop f r
unfolding loop
loop_skip f a r h = rw (h, loop) refl

loop_took :
    (f : ℕ) (a r : Bytes) (p : Packet) → turn a ≡ took p r → loop (suc f) a ≡ prepend p (loop f r)
unfolding loop
loop_took f a r p h = rw (h, loop) refl

loop-turn : (f : ℕ) (a b : Bytes) → turn a ≡ turn b → loop (suc f) a ≡ loop (suc f) b
unfolding loop
loop-turn f a b h = rw (h, loop) refl

Extends-seek : (a b : Bytes) → Extends b (turn a) (turn (a ++ b))
unfolding seek_turn
Extends-seek a b = elim (Option-cases (seek a)) [
  | inl h ↦ subst (λ t. Extends b t (turn (a ++ b))) (sym (turn-seek a ∙ ap (seek_turn a) h)) tt
  | inr (s, h) ↦
      rw (turn-seek a, h, turn-seek (a ++ b), seek-append a s b h) (aligned_turn-Extends s b)
]

seek_idem : (a s : Bytes) → seek a ≡ some s → seek s ≡ some s
unfolding seek
seek_idem [] s h = cc h
seek_idem (x ∷ a) s h = elim (Bool-cases (at_magic (x ∷ a))) [
  | inl here ↦
      let e : x ∷ a ≡ s = ground (arith, h, here) in subst (λ t. seek t ≡ some t) e (rw here refl)
  | inr later ↦ seek_idem a s (ground (arith, h, later))
]

seek_turn_none :
    (a b : Bytes) (o : Option Bytes) → seek_turn (take_last 3 a ++ b) o ≡ seek_turn (a ++ b) o
unfolding seek_turn
seek_turn_none a b none = ap halt (sym (take_last-take_last a b))
seek_turn_none a b (some s) = refl

seek_turn-some : (a b s : Bytes) → seek_turn a (some s) ≡ seek_turn b (some s)
unfolding seek_turn
seek_turn-some a b s = refl

kept_none : (a r : Bytes) → turn a ≡ halt r → seek a ≡ none → take_last 3 a ≡ r
unfolding seek_turn
kept_none a r h e =
    let waits : halt (take_last 3 a) ≡ halt r = sym (turn-seek a ∙ ap (seek_turn a) e) ∙ h in
    cc waits

kept_some : (a r s : Bytes) → turn a ≡ halt r → seek a ≡ some s → r ≡ s
unfolding seek_turn
kept_some a r s h e =
    let waits : aligned_turn s ≡ halt r = sym (turn-seek a ∙ ap (seek_turn a) e) ∙ h in
    (subst (Advances s) waits (aligned_turn-Advances s)).0

-- What a turn kept while it waits carries all that a later turn needs.
turn-halt : (a r b : Bytes) → turn a ≡ halt r → turn (r ++ b) ≡ turn (a ++ b)
turn-halt a r b h = elim (Option-cases (seek a)) [
  | inl e ↦
      let kept = kept_none a r h e in
      subst (λ t. turn (t ++ b) ≡ turn (a ++ b)) kept
        (turn-seek (take_last 3 a ++ b)
          ∙ seek_turn_none a b (seek (take_last 3 a ++ b))
          ∙ ap (seek_turn (a ++ b)) (sym (seek-take_last a b e))
          ∙ sym (turn-seek (a ++ b)))
  | inr (s, e) ↦
      let kept = kept_some a r s h e in
      subst (λ t. turn (t ++ b) ≡ turn (a ++ b)) (sym kept)
        (turn-seek (s ++ b)
          ∙ ap (seek_turn (s ++ b)) (seek-append s s b (seek_idem a s e))
          ∙ seek_turn-some (s ++ b) (a ++ b) (s ++ b)
          ∙ ap (seek_turn (a ++ b)) (sym (seek-append a s b e))
          ∙ sym (turn-seek (a ++ b)))
]

-- The packets of two calls, put together.
abbrev pub join : List Packet → Parsed → Parsed
join packets (later, rest) = (packets ++ later, rest)

prepend-join :
    (p : Packet) (packets : List Packet) (parsed : Parsed) (o : Option Parsed)
    → o ≡ some (join packets parsed)
    → prepend p o ≡ some (join (p ∷ packets) parsed)
prepend-join p packets (later, rest) o h = ap (prepend p) h

module _ (b : Bytes) (later : Parsed) where
  -- The packets found in `a` and the bytes kept from it, then `b`.
  Resumes : (h : ℕ) (a : Bytes) → Option Parsed → Type 0
  Resumes h a none = Unit {0}
  Resumes h a (some (packets, rest)) =
      parse_packets (rest ++ b) ≡ some later → loop h (a ++ b) ≡ some (join packets later)

  Resumes-prepend :
      (h : ℕ) (a r : Bytes) (p : Packet) (o : Option Parsed)
      → loop (suc h) (a ++ b) ≡ prepend p (loop h (r ++ b))
      → Resumes h r o
      → Resumes (suc h) a (prepend p o)
  unfolding Resumes
  Resumes-prepend h a r p none e w = tt
  Resumes-prepend h a r p (some (packets, rest)) e w =
      λ next. e ∙ prepend-join p packets later (loop h (r ++ b)) (w next)

  Resumes-step :
      (h : ℕ) (a r : Bytes) (o : Option Parsed)
      → loop (suc h) (a ++ b) ≡ loop h (r ++ b)
      → Resumes h r o
      → Resumes (suc h) a o
  unfolding Resumes
  Resumes-step h a r none e w = tt
  Resumes-step h a r (some (packets, rest)) e w = λ next. e ∙ w next

  Resumes-halt :
      (h : ℕ) (a r : Bytes)
      → turn a ≡ halt r
      → length (a ++ b) < suc h
      → Resumes (suc h) a (some ([], r))
  unfolding Resumes
  Resumes-halt h a r e fuel next =
      let less = (subst (Shortens a) e (turn-Shortens a)).0 in
      loop-turn h (a ++ b) (r ++ b) (sym (turn-halt a r b e))
      ∙ loop_enough (suc h) (suc (length (r ++ b))) (r ++ b)
          (omega (arith, fuel, less, length-append a b, length-append r b)) (omega arith)
      ∙ next

  loop-Resumes : (f h : ℕ) (a : Bytes) → length (a ++ b) < h → Resumes h a (loop f a)
  unfolding loop Resumes
  loop-Resumes zero h a fuel = tt
  loop-Resumes (suc f) zero a fuel = absurd (omega (arith, fuel))
  loop-Resumes (suc f) (suc h) a fuel = elim (Turn-cases (turn a)) [
    | inl (r, e) ↦ rw (e, Resumes, loop) (Resumes-halt h a r e fuel)
    | inr (inl (r, e)) ↦
        let less = subst (Shortens a) e (turn-Shortens a) in
        let whole : turn (a ++ b) ≡ skip (r ++ b) =
          subst (λ t. Extends b t (turn (a ++ b))) e (Extends-seek a b) in
        rw (e, loop)
          (Resumes-step h a r (loop f r) (loop_skip h (a ++ b) (r ++ b) whole)
            (loop-Resumes f h r (omega (arith, fuel, less, length-append a b, length-append r b))))
    | inr (inr (p, r, e)) ↦
        let less = subst (Shortens a) e (turn-Shortens a) in
        let whole : turn (a ++ b) ≡ took p (r ++ b) =
          subst (λ t. Extends b t (turn (a ++ b))) e (Extends-seek a b) in
        rw (e, loop)
          (Resumes-prepend h a r p (loop f r) (loop_took h (a ++ b) (r ++ b) p whole)
            (loop-Resumes f h r (omega (arith, fuel, less, length-append a b, length-append r b))))
  ]

-- Where the stream is cut makes no difference: if the parser finds `packets` in the bytes `a` and
-- keeps `rest`, and then finds `later` in `rest` followed by the bytes `b`, then on all the bytes
-- at once it finds the same packets in the same order and keeps the same rest.
pub parse_packets-append :
    (a b rest : Bytes) (packets : List Packet) (later : Parsed)
    → parse_packets a ≡ some (packets, rest)
    → parse_packets (rest ++ b) ≡ some later
    → parse_packets (a ++ b) ≡ some (join packets later)
unfolding Resumes
parse_packets-append a b rest packets later p q =
    subst (Resumes b later (suc (length (a ++ b))) a) p
      (loop-Resumes b later (suc (length a)) (suc (length (a ++ b))) a (omega arith)) q
