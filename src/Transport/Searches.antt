-- ===== src/Transport/Searches.antt =====
-- The search for the camera: its packets, its clock, and what becomes of its socket.
use mathlib.Core.Logic.{◌≢◌}
use ha_reolink_battery.Base.{
  ℕ, ◌+◌, ◌-◌, ◌*◌, ◌≤◌, ◌≡◌, refl, Bool, true, false, not, Option, none, some, List, [], ◌∷◌,
  arith, ltb, All, any, if◌then◌else◌,
}
use ha_reolink_battery.Transport.{
  Codec, Socket, opened, closed, Reception, silent, datagram, breaks_sending, breaks_receiving,
  SearchTurn, Search, Found, lease, timed_out, broken, searching, adopt, close_socket, parse_reply,
  receive, resend_interval, search_loop, send_due,
}

-- The counters of a search whose clock reads from `start` to `stop`.
pub record IsPaced (targets start stop : ℕ) (search : Search) : Type 0 where
  pub counted : search.trace.datagrams_sent ≡ search.trace.send_rounds * targets
  pub spaced : search.trace.send_rounds * resend_interval ≤ search.next_send - start
  pub last_round : search.next_send ≤ stop + resend_interval

-- What becomes of the socket: the lease has it, or it is closed once the search is over.
abbrev pub Disposed : Search → Found → Type 0
Disposed search (lease address device_id) =
    (search.socket ≡ opened) × (search.trace.succeeded ≡ true)
Disposed search timed_out = (search.socket ≡ closed) × (search.trace.succeeded ≡ false)
Disposed search broken = (search.socket ≡ closed) × (search.trace.succeeded ≡ false)
Disposed search searching = (search.socket ≡ opened) × (search.trace.succeeded ≡ false)

-- A search that goes on.
abbrev pub IsSearching : Search → Type 0
IsSearching search = (search.socket ≡ opened) × (search.trace.succeeded ≡ false)

module _ (targets start stop : ℕ) where
  IsPaced-if :
      (b : Bool) (x y : Search)
      → (b ≡ true → IsPaced targets start stop x)
      → (b ≡ false → IsPaced targets start stop y)
      → IsPaced targets start stop (if b then x else y)
  IsPaced-if true x y p q = p refl
  IsPaced-if false x y p q = q refl

  send_due-IsPaced :
      (now : ℕ) (search : Search)
      → start ≤ now
      → now ≤ stop
      → IsPaced targets start stop search
      → IsPaced targets start stop (send_due targets now search)
  unfolding send_due
  send_due-IsPaced now search after before paced =
      IsPaced-if (ltb now search.next_send) search _ (λ _. paced)
        λ due. record {
          counted = omega (arith, paced.counted, suc_times search.trace.send_rounds);
          spaced = ground (arith, due, after, paced.spaced);
          last_round = omega (arith, before);
        }
    where
      suc_times : (n : ℕ) → (n + 1) * targets ≡ n * targets + targets
      suc_times n = grind arith

IsSearching-if :
    (b : Bool) (x y : Search) → IsSearching x → IsSearching y → IsSearching (if b then x else y)
IsSearching-if true x y p q = p
IsSearching-if false x y p q = q

send_due-IsSearching :
    (targets now : ℕ) (search : Search)
    → IsSearching search
    → IsSearching (send_due targets now search)
unfolding send_due
send_due-IsSearching targets now search h = IsSearching-if (ltb now search.next_send) search _ h h

module _ (codec : Codec) (targets client_id deadline start stop : ℕ) where
  -- How the search stands.
  abbrev Stands : Search × Found → Type 0
  Stands (search, found) = IsPaced targets start stop search × Disposed search found

  Stands-if : (b : Bool) (x y : Search × Found) → Stands x → Stands y → Stands (if b then x else y)
  Stands-if true x y p q = p
  Stands-if false x y p q = q

  IsPaced-with :
      (search : Search) (s : Socket) (b : Bool)
      → IsPaced targets start stop search
      → IsPaced targets start stop
          (record search { socket = s; trace = record search.trace { succeeded = b } })
  IsPaced-with search s b paced = record {
    counted = paced.counted;
    spaced = paced.spaced;
    last_round = paced.last_round;
  }

  adopt-Stands :
      (address : ℕ) (o : Option ℕ) (search : Search) (rest : Search × Found)
      → IsPaced targets start stop search
      → IsSearching search
      → Stands rest
      → Stands (adopt address o search rest)
  adopt-Stands address none search rest paced live more = more
  adopt-Stands address (some d) search rest paced live more =
      (IsPaced-with search search.socket true paced, (live.0, refl))

  receive-Stands :
      (r : Reception) (before search : Search) (rest : Search × Found)
      → IsPaced targets start stop before
      → IsSearching before
      → IsPaced targets start stop search
      → IsSearching search
      → Stands rest
      → Stands (receive codec targets client_id deadline r before search rest)
  unfolding receive
  receive-Stands silent before search rest p l paced live more = more
  receive-Stands (datagram received address) before search rest p l paced live more =
      adopt-Stands address (parse_reply codec received client_id) search rest paced live more
  receive-Stands breaks_sending before search rest p l paced live more =
      (IsPaced-with before closed before.trace.succeeded p, (refl, l.1))
  receive-Stands breaks_receiving before search rest p l paced live more =
      (IsPaced-with search closed search.trace.succeeded paced, (refl, live.1))

  -- While the clock reads from `start` to `stop`, the search sends one packet to each target at
  -- most once in half a second; it ends with a lease that has the open socket exactly if it
  -- succeeded, and otherwise with the socket closed.
  pub search_loop-Stands :
      (turns : List SearchTurn) (search : Search)
      → All (λ (t : SearchTurn). (start ≤ t.now) × (t.now ≤ stop)) turns
      → IsPaced targets start stop search
      → IsSearching search
      → Stands (search_loop codec targets client_id deadline turns search)
  unfolding search_loop
  search_loop-Stands [] search clock paced live = (paced, live)
  search_loop-Stands (turn ∷ turns) search clock paced live =
      let sent = send_due targets turn.now search in
      let kept = send_due-IsPaced targets start stop turn.now search clock.0.0 clock.0.1 paced in
      let still = send_due-IsSearching targets turn.now search live in
      Stands-if (ltb turn.checked deadline) _ (close_socket search, timed_out)
        (receive-Stands turn.reception search sent _ paced live kept still
          (search_loop-Stands turns sent clock.1 kept still))
        (IsPaced-with search closed search.trace.succeeded paced, (refl, live.1))

module _ (codec : Codec) (targets client_id deadline : ℕ) where
  abbrev Over : Search × Found → Type 0
  Over (s, found) = found ≢ searching

  Over-if :
      (b : Bool) (x y : Search × Found) → (b ≡ true → Over x) → Over y → Over (if b then x else y)
  Over-if true x y p q = p refl
  Over-if false x y p q = q

  adopt-Over :
      (address : ℕ) (o : Option ℕ) (s : Search) (rest : Search × Found)
      → Over rest
      → Over (adopt address o s rest)
  adopt-Over address none s rest h = h
  adopt-Over address (some d) s rest h = λ e. cc e

  receive-Over :
      (r : Reception) (before s : Search) (rest : Search × Found)
      → Over rest
      → Over (receive codec targets client_id deadline r before s rest)
  unfolding receive
  receive-Over silent before s rest h = h
  receive-Over (datagram received address) before s rest h =
      adopt-Over address (parse_reply codec received client_id) s rest h
  receive-Over breaks_sending before s rest h = λ e. cc e
  receive-Over breaks_receiving before s rest h = λ e. cc e

  search_loop-Over :
      (turns : List SearchTurn) (s : Search)
      → any (λ t. not (ltb t.checked deadline)) turns ≡ true
      → Over (search_loop codec targets client_id deadline turns s)
  unfolding search_loop
  search_loop-Over [] s late = λ _. ground (arith, late)
  search_loop-Over (turn ∷ turns) s late =
      let sent = send_due targets turn.now s in
      let rest = search_loop codec targets client_id deadline turns sent in
      Over-if (ltb turn.checked deadline)
        (receive codec targets client_id deadline turn.reception s sent rest)
        (close_socket s, timed_out)
        (λ early.
          receive-Over turn.reception s sent rest
            (search_loop-Over turns sent (ground (arith, late, early))))
        (λ e. cc e)

abbrev pub new_search : Search
new_search = record {
  socket = opened;
  trace = record { send_rounds = 0; datagrams_sent = 0; succeeded = false };
  next_send = 0;
}

-- A search from the start, over readings of the clock between `start` and `stop`: it sends one
-- packet to each target in at most one round for each half second and one more; it ends with a
-- lease that has the open socket exactly if it succeeded, and otherwise with the socket closed; and
-- a reading at the deadline or later ends it.
pub search_loop_bounds :
    (codec : Codec) (targets client_id deadline start stop : ℕ) (turns : List SearchTurn)
    → All (λ (t : SearchTurn). (start ≤ t.now) × (t.now ≤ stop)) turns
    → let (search, found) = search_loop codec targets client_id deadline turns new_search in
      (search.trace.send_rounds * 500000 ≤ (stop - start) + 500000)
      × (search.trace.datagrams_sent ≡ search.trace.send_rounds * targets)
      × Disposed search found
      × (any (λ t. not (ltb t.checked deadline)) turns ≡ true → found ≢ searching)
search_loop_bounds codec targets client_id deadline start stop turns clock =
    let fresh : IsPaced targets start stop new_search = record {
      counted = omega arith;
      spaced = omega arith;
      last_round = omega arith;
    } in
    let (paced, disposed) =
      search_loop-Stands codec targets client_id deadline start stop turns new_search clock fresh
        (refl, refl) in
    (
      omega (arith, paced.spaced, paced.last_round),
      paced.counted,
      disposed,
      search_loop-Over codec targets client_id deadline turns new_search,
    )
