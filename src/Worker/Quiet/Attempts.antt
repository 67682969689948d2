-- ===== src/Worker/Quiet/Attempts.antt =====
-- recording_worker.py: a quiet round. Its attempts leave the queue alone until one succeeds, and
-- it is never preempted.
use ha_reolink_battery.Base.{
  ℕ, zero, suc, ◌≡◌, refl, subst, Bool, true, false, not, ◌&&◌, ◌||◌, some, List, [], arith,
  if◌then◌else◌, ltb, contains, contains-discard, ◌==◌,
}
use ha_reolink_battery.Event.{CloudEvent}
use ha_reolink_battery.Worker.State.{Worker}
use ha_reolink_battery.Worker.{consume_credit}
use ha_reolink_battery.Worker.Pick.{Picked}
use ha_reolink_battery.Worker.Attempt.{Attempted, process_once}
use ha_reolink_battery.Worker.Round.{
  Ending, Gate, Round, Try, stopped, completed, preempted, exhausted, halt, overtaken, go,
  after_attempt, approach, await_retry, before_attempt, classify_incomplete_stream_failure,
  count_retry, count_stale_match, ends, forget, is_partial, manual_stale_match_is_terminal, pass,
  retry_delay, run_attempts, wait_retry_or_newer_event,
}
use ha_reolink_battery.Worker.Quiet.{IsQuietTry, Narrows, Rests, wait_retry-Rests}
use ha_reolink_battery.Worker.Quiet.Fares.{
  Completes, Fares, Fared, fail_with-Narrows, process_once-Fared,
}

module _ (e : CloudEvent) (v : Worker) where
  Narrows-if :
      (b : Bool) (x y : Worker × Bool)
      → Narrows v x.0
      → Narrows v y.0
      → Narrows v (if b then x else y).0
  Narrows-if true x y p q = p
  Narrows-if false x y p q = q

  consume_credit-Narrows :
      (now : ℕ) (w : Worker) → Narrows v w → Narrows v (consume_credit e now w).0
  unfolding consume_credit
  consume_credit-Narrows now w k =
      Narrows-if (not (contains e.event_id w.credits)) (w, false) _ k
        (record {
          same = k.same;
          manual = k.manual;
          credits = λ x h. k.credits x (ground (arith, h, contains-discard x e.event_id w.credits));
          activated = k.activated;
        })

  classify-Narrows : (w : Worker) → Narrows v w → Narrows v (classify_incomplete_stream_failure w).0
  unfolding classify_incomplete_stream_failure
  classify-Narrows w k =
      Narrows-if (not (is_partial w.stream)) (w, false) _ k
        (Narrows-if
          (w.stream.remote_disconnect_observed
            && w.stream.termination_reason == "connection_closed")
          _ _ (fail_with-Narrows e v _ _ w k)
          (Narrows-if (w.stream.termination_reason == "idle_timeout") _ (w, false)
            (fail_with-Narrows e v _ _ w k) k))

  -- A gate that does not give way.
  abbrev Passes : Worker → Gate → Type 0
  Passes w halt = Unit
  Passes w overtaken = ⊥
  Passes w go = Narrows v w

  abbrev Through : Worker × Gate → Type 0
  Through (w, gate) = Passes w gate

  -- What the attempts of a quiet round leave.
  abbrev pub Settles : Worker → Ending → Type 0
  Settles w stopped = Unit
  Settles w preempted = ⊥
  Settles w completed = Completes e v w
  Settles w (exhausted reason) = Narrows v w

  abbrev Settled : Round → Type 0
  Settled r = Settles r.worker r.ending

  Settled-if :
      (b : Bool) (r s : Round)
      → (b ≡ true → Settled r)
      → (b ≡ false → Settled s)
      → Settled (if b then r else s)
  Settled-if true r s p q = p refl
  Settled-if false r s p q = q refl

  pass-Settled :
      (gate : Gate) (w : Worker) (r : Round)
      → Passes w gate
      → (Narrows v w → Settled r)
      → Settled (pass gate w r)
  unfolding pass
  pass-Settled halt w r p k = tt
  pass-Settled overtaken w r p k = p
  pass-Settled go w r p k = k p

  after_attempt-Settled :
      (checked : ℕ) (r : Attempted) (w : Worker) (rest : Round)
      → Fared e v r
      → (Narrows v r.worker → Narrows v w)
      → (Narrows v w → Settled rest)
      → Settled (after_attempt e checked r w rest)
  unfolding after_attempt count_stale_match
  after_attempt-Settled checked r w rest fared onward later =
      Settled-if r.done (ends (forget e r.worker) completed) _
        (λ done. subst (Fares e v r.worker) done fared)
        λ failed.
          let kept = onward (subst (Fares e v r.worker) failed fared) in
          Settled-if (manual_stale_match_is_terminal e checked w) _ rest
            (λ _. record {
              same = kept.same;
              manual = kept.manual;
              credits = kept.credits;
              activated = kept.activated;
            })
            (λ _. later kept)

  module _ (start : ℕ) (chosen : Picked v start (some e)) where
    await_retry-Passes :
        (delay : ℕ) (t : Try) (w : Worker)
        → IsQuietTry start t
        → Narrows v w
        → let (w', gate) = await_retry e delay t w in Passes w' gate
    unfolding await_retry
    await_retry-Passes delay t w quiet k =
        let (w', over) = wait_retry_or_newer_event e delay t w in
        by_flags over w'.stopped w' (wait_retry-Rests v start e chosen delay t w quiet k) refl
      where
        by_flags :
            (over stopping : Bool) (w' : Worker)
            → Rests v start e chosen (w', over)
            → w'.stopped ≡ stopping
            → Through (
                if over
                then (count_retry w', go)
                else if stopping
                then (w', halt)
                else (w', overtaken))
        by_flags true stopping w' (kept, cut) h = record {
          same = kept.same;
          manual = kept.manual;
          credits = kept.credits;
          activated = kept.activated;
        }
        by_flags false true w' rests h = tt
        by_flags false false w' (kept, cut) h = cc (cut refl, h)

    approach-Passes :
        (i : ℕ) (fast : Bool) (k : ℕ) (t : Try) (w : Worker)
        → IsQuietTry start t
        → Narrows v w
        → let (w', gate, delays) = approach e i fast k t w in Passes w' gate
    unfolding approach
    approach-Passes zero fast k t w quiet kept = consume_credit-Narrows t.credited w kept
    approach-Passes (suc i) fast k t w quiet kept =
        await_retry-Passes (retry_delay (suc i) fast k) t w quiet kept

    abbrev Gated : Worker × Gate × List ℕ → Type 0
    Gated (w, gate, delays) = Passes w gate

    Gated-if :
        (b : Bool) (x y : Worker × Gate × List ℕ) → Gated x → Gated y → Gated (if b then x else y)
    Gated-if true x y p q = p
    Gated-if false x y p q = q

    before_attempt-Gated :
        (i : ℕ) (fast : Bool) (k : ℕ) (t : Try) (w : Worker)
        → IsQuietTry start t
        → Narrows v w
        → Gated (before_attempt e i fast k t w)
    unfolding before_attempt
    before_attempt-Gated i fast k t w quiet kept =
        Gated-if w.stopped (w, halt, []) _ tt (approach-Passes i fast k t w quiet kept)

    pub run_attempts-Settled :
        (left i : ℕ) (try : ℕ → Try) (fast : Bool) (k : ℕ) (w : Worker)
        → ((j : ℕ) → IsQuietTry start (try j))
        → Narrows v w
        → Settled (run_attempts left i try e fast k w)
    unfolding run_attempts
    run_attempts-Settled zero i try fast k w quiet kept = kept
    run_attempts-Settled (suc left) i try fast k w quiet kept =
        let (w1, gate, delays) = before_attempt e i fast k (try i) w in
        let r = process_once e (try i).meeting w1 in
        let (w2, incomplete) = classify_incomplete_stream_failure r.worker in
        let k' = if fast && ltb 0 i then suc k else k in
        let rest = run_attempts left (suc i) try e (fast || incomplete) k' w2 in
        pass-Settled gate w1 (after_attempt e (try i).checked r w2 rest)
          (before_attempt-Gated i fast k (try i) w (quiet i) kept)
          λ passed.
            after_attempt-Settled (try i).checked r w2 rest
              (process_once-Fared e v (try i).meeting w1 (quiet i).meeting_quiet passed)
              (classify-Narrows r.worker)
              (run_attempts-Settled left (suc i) try (fast || incomplete) k' w2 quiet)
