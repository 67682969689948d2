-- ===== src/Worker/Round/Delays.antt =====
-- recording_worker_v138.py: how many retry delays a round begins and how long they are.
use ha_reolink_battery.Base.{
  ℕ, zero, suc, ◌+◌, ◌-◌, ◌≤◌, min, ◌≡◌, refl, Bool, true, false, ◌||◌, ◌&&◌, List, [], ◌∷◌, ◌++◌,
  arith, if◌then◌else◌, ltb, length, length-append,
}
use ha_reolink_battery.Event.{CloudEvent}
use ha_reolink_battery.Worker.State.{Worker}
use ha_reolink_battery.Worker.Attempt.{Attempted, process_once}
use ha_reolink_battery.Worker.Round.{
  Ending, stopped, completed, preempted, exhausted, halt, overtaken, go, approach, pass,
  after_attempt, manual_stale_match_is_terminal, ends, Gate, Plan, Round, Try, attend,
  before_attempt, classify_incomplete_stream_failure, close_round, fast_delay, normal_delay,
  retry_delay, run_attempts, settle_event,
}

abbrev pub sum : List ℕ → ℕ
sum [] = 0
sum (d ∷ ds) = d + sum ds

-- The longest wait before the i-th attempt.
abbrev longest : ℕ → ℕ
longest zero = 0
longest (suc zero) = 30000000
longest (suc (suc i)) = 60000000

pub fast_delay_bound : (m : ℕ) → fast_delay m ≤ 6000000
fast_delay_bound zero = omega arith
fast_delay_bound (suc m) = omega arith

normal_delay_bound : (m : ℕ) → normal_delay m ≤ 60000000
normal_delay_bound zero = omega arith
normal_delay_bound (suc m) = omega arith

retry_delay_bound : (i : ℕ) (fast : Bool) (k : ℕ) → retry_delay (suc i) fast k ≤ longest (suc i)
unfolding retry_delay
retry_delay_bound zero true k = omega (arith, fast_delay_bound (min k 1))
retry_delay_bound (suc i) true k = omega (arith, fast_delay_bound (min k 1))
retry_delay_bound zero false k = omega arith
retry_delay_bound (suc i) false k = normal_delay_bound (min (suc (suc i) - 1) 1)

-- What one attempt adds at most: no delay if it is the first.
abbrev Brief : ℕ → Worker × Gate × List ℕ → Type 0
Brief i x = (sum x.2 ≤ longest i) × (length x.2 ≤ min i 1)

Brief-if :
    (b : Bool) (i : ℕ) (x y : Worker × Gate × List ℕ)
    → Brief i x
    → Brief i y
    → Brief i (if b then x else y)
Brief-if true i x y h k = h
Brief-if false i x y h k = k

module _ (e : CloudEvent) (fast : Bool) (k : ℕ) (t : Try) (w : Worker) where
  approach-Brief : (i : ℕ) → Brief i (approach e i fast k t w)
  unfolding approach
  approach-Brief zero = (omega arith, omega arith)
  approach-Brief (suc i) = (omega (arith, retry_delay_bound i fast k), omega arith)

  before_attempt-Brief : (i : ℕ) → Brief i (before_attempt e i fast k t w)
  unfolding before_attempt
  before_attempt-Brief i = Brief-if w.stopped i _ _ (omega arith, omega arith) (approach-Brief i)

-- What the remaining attempts add at most.
abbrev total : ℕ → ℕ → ℕ
total zero i = 0
total (suc left) i = longest i + total left (suc i)

abbrev most : ℕ → ℕ → ℕ
most zero i = 0
most (suc left) i = min i 1 + most left (suc i)

abbrev Short : ℕ → ℕ → List ℕ → Type 0
Short left i ds = (sum ds ≤ total left i) × (length ds ≤ most left i)

sum-append : (xs ys : List ℕ) → sum (xs ++ ys) ≡ sum xs + sum ys
sum-append [] ys = omega arith
sum-append (x ∷ xs) ys = omega (arith, sum-append xs ys)

length-append_le : (xs ys : List ℕ) → length (xs ++ ys) ≤ length xs + length ys
length-append_le xs ys = omega (arith, length-append xs ys)

-- The delays of a round are those before the attempt, then those of what it lets through.
pass-Short :
    (gate : Gate) (left i : ℕ) (w : Worker) (r : Round)
    → Short left i r.delays
    → Short left i (pass gate w r).delays
unfolding pass
pass-Short halt left i w r h = (omega arith, omega arith)
pass-Short overtaken left i w r h = (omega arith, omega arith)
pass-Short go left i w r h = h

Short-if :
    (b : Bool) (left i : ℕ) (r s : Round)
    → Short left i r.delays
    → Short left i s.delays
    → Short left i (if b then r else s).delays
Short-if true left i r s h k = h
Short-if false left i r s h k = k

after_attempt-Short :
    (left i : ℕ) (e : CloudEvent) (checked : ℕ) (a : Attempted) (w : Worker) (rest : Round)
    → Short left i rest.delays
    → Short left i (after_attempt e checked a w rest).delays
unfolding after_attempt
after_attempt-Short left i e checked a w rest h =
    Short-if a.done left i _ _ (omega arith, omega arith)
      (Short-if (manual_stale_match_is_terminal e checked w) left i _ _ (omega arith, omega arith)
        h)

run_attempts-Short :
    (left i : ℕ) (try : ℕ → Try) (e : CloudEvent) (fast : Bool) (k : ℕ) (w : Worker)
    → Short left i (run_attempts left i try e fast k w).delays
unfolding run_attempts
run_attempts-Short zero i try e fast k w = (omega arith, omega arith)
run_attempts-Short (suc left) i try e fast k w =
    let (w1, gate, delays) = before_attempt e i fast k (try i) w in
    let r = process_once e (try i).meeting w1 in
    let (w2, incomplete) = classify_incomplete_stream_failure r.worker in
    let k' = if fast && ltb 0 i then suc k else k in
    let rest = run_attempts left (suc i) try e (fast || incomplete) k' w2 in
    let (few, short) = before_attempt-Brief e fast k (try i) w i in
    let (few', short') =
      pass-Short gate left (suc i) w1 (after_attempt e (try i).checked r w2 rest) (
        after_attempt-Short left (suc i) e (try i).checked r w2 rest
          (run_attempts-Short left (suc i) try e (fast || incomplete) k' w2)) in
    (omega (arith, sum-append, few, few'), omega (arith, length-append_le, short, short'))

close_round-delays :
    (e : CloudEvent) (now : ℕ) (r : Round) (x : Ending)
    → r.ending ≡ x
    → (close_round e now r).delays ≡ r.delays
unfolding close_round
close_round-delays e now r stopped h = rw h refl
close_round-delays e now r completed h = rw h refl
close_round-delays e now r preempted h = rw h refl
close_round-delays e now r (exhausted reason) h = rw h refl

-- Whatever happens in a round, at most two retries are waited for, and their delays are ninety
-- seconds together at most.
pub attend_delays :
    (e : CloudEvent) (p : Plan) (w : Worker)
    → let ds = (attend e p w).delays in (length ds ≤ 2) × (sum ds ≤ 90000000)
unfolding attend
attend_delays e p w =
    let (w', calm) = settle_event e p.settled p.settling w in
    let tried = run_attempts 3 0 p.try e false 0 w' in
    let (few, short) =
      Short-if calm 3 0 (close_round e p.deferred tried) (ends w' stopped)
        (rw (close_round-delays e p.deferred tried tried.ending refl)
          (run_attempts-Short 3 0 p.try e false 0 w'))
        (omega arith, omega arith) in
    (omega (arith, short), omega (arith, few))
