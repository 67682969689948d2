-- ===== src/Stream/Session/Sound.antt =====
-- What a live session holds on its way, whatever its calls meet.
use ha_reolink_battery.Base.{
  ℕ, ◌≡◌, refl, ◌∙◌, Bool, true, false, ◌||◌, Option, none, some, arith, String, if◌then◌else◌,
}
use ha_reolink_battery.Stream.Session.{
  Fault, Answer, answer, no_answer, Script, held, adopted, LiveSession, fresh, Ending, finished,
  faulted, Ended, attempt, await_answer, require, accepts, find_camera, make_parts, wake_camera,
  authenticate, start_stream, request_stop, stop_stream, follow_stream, stream_body, runtime_error,
}

module _ (script : Script) where
  -- What the session holds belongs to a connection that the clean-up finds, and it ends well only
  -- once the stream was accepted.
  pub record Holds (session : LiveSession) : Type 0 where
    pub owned :
        (session.is_decrypting || session.has_sinks || session.is_armed) ≡ true
        → session.has_connection ≡ true
    pub armed_protocol : session.is_armed ≡ true → script.is_live_protocol ≡ true
    pub adopted_owned : session.lease ≡ adopted → session.has_connection ≡ true

  abbrev pub EndsWell : LiveSession → Ending → Type 0
  EndsWell session (finished reason) = (session.start_accepted ≡ true) × (session.lease ≡ adopted)
  EndsWell session (faulted fault) = Unit {0}

  abbrev pub Sound : Ended → Type 0
  Sound ended = Holds ended.0 × EndsWell ended.0 ended.1

  Sound-attempt :
      (o : Option Fault) (session : LiveSession) (next : LiveSession → Ended)
      → Holds session
      → Sound (next session)
      → Sound (attempt o session next)
  Sound-attempt (some fault) session next h n = (h, tt)
  Sound-attempt none session next h n = n

  Sound-require :
      (b : Bool) (fault : Fault) (session : LiveSession) (next : LiveSession → Ended)
      → Holds session
      → (b ≡ true → Sound (next session))
      → Sound (require b fault session next)
  Sound-require false fault session next h n = (h, tt)
  Sound-require true fault session next h n = n refl

  Sound-await_answer :
      (a : Answer) (session : LiveSession) (next : ℕ → LiveSession → Ended)
      → Holds session
      → ((code : ℕ) → Sound (next code session))
      → Sound (await_answer a session next)
  Sound-await_answer (no_answer fault) session next h n = (h, tt)
  Sound-await_answer (answer code) session next h n = n code

  -- A session before the stream: it holds a connection, and no more than this.
  record Connected (session : LiveSession) : Type 0 where
    connected : session.has_connection ≡ true
    live : session.is_armed ≡ true → script.is_live_protocol ≡ true

  Connected-Holds : (session : LiveSession) → Connected session → Holds session
  Connected-Holds session c = record {
    owned = λ _. c.connected;
    armed_protocol = c.live;
    adopted_owned = λ _. c.connected;
  }

  find_camera-Sound :
      (next : LiveSession → Ended)
      → Sound (next (record fresh { lease = held }))
      → Sound (find_camera script fresh next)
  unfolding find_camera
  find_camera-Sound next n = Sound-attempt script.find_interface fresh _ none_yet (
      Sound-attempt script.resolve_uid fresh _ none_yet
        (Sound-attempt script.validate_route (record fresh { lease = held }) next leased n))
    where
      none_yet : Holds fresh
      none_yet = record {
        owned = λ h. ground (arith, h);
        armed_protocol = λ h. ground (arith, h);
        adopted_owned = λ h. cc h;
      }

      leased : Holds (record fresh { lease = held })
      leased = record {
        owned = λ h. ground (arith, h);
        armed_protocol = λ h. ground (arith, h);
        adopted_owned = λ h. cc h;
      }

  make_parts-Sound :
      (session : LiveSession) (next : LiveSession → Ended)
      → Holds session
      → Holds (record session { has_host = true })
      → Sound (next (record session { has_host = true; has_connection = true }))
      → Sound (make_parts script session next)
  unfolding make_parts
  make_parts-Sound session next h k n =
      Sound-attempt script.make_host session _ h
        (Sound-attempt script.make_connection (record session { has_host = true }) _ k n)

  wake_camera-Sound :
      (session : LiveSession) (next : LiveSession → Ended)
      → Connected session
      → ((stage : String)
          → Sound (next (record session { failure_stage = stage; lease = adopted })))
      → Sound (wake_camera script session next)
  unfolding wake_camera
  wake_camera-Sound session next c n =
      let waking = record session { failure_stage = "LIVE_WAKE_ERROR" } in
      let holds = Connected-Holds waking (record { connected = c.connected; live = c.live }) in
      Sound-attempt script.connect waking _ holds
        (Sound-require script.adopts runtime_error waking _ holds λ _. n "LIVE_WAKE_ERROR")

  authenticate-Sound :
      (session : LiveSession) (next : LiveSession → Ended)
      → Connected session
      → ((later : LiveSession) → Connected later → later.lease ≡ session.lease → Sound (next later))
      → Sound (authenticate script session next)
  unfolding authenticate
  authenticate-Sound session next c n =
      let asking = record session { failure_stage = "LIVE_AUTH_ERROR" } in
      let active = record asking { is_decrypting = true; has_sinks = true } in
      let armed = record active { is_armed = true } in
      let holds = Connected-Holds active (record { connected = c.connected; live = c.live }) in
      Sound-attempt script.login asking _
        (Connected-Holds asking (record { connected = c.connected; live = c.live }))
        (Sound-attempt script.build_wires active _ holds (
          Sound-require script.is_live_protocol runtime_error active _ holds λ live.
            let still : Connected armed = record { connected = c.connected; live = λ _. live } in
            Sound-attempt script.start_keepalive armed next (Connected-Holds armed still)
              (n armed still refl)))

  start_stream-Sound :
      (session : LiveSession) (next : LiveSession → Ended)
      → Connected session
      → ((later : LiveSession)
          → Connected later
          → later.lease ≡ session.lease
          → later.start_accepted ≡ true
          → Sound (next later))
      → Sound (start_stream script session next)
  unfolding start_stream
  start_stream-Sound session next c n =
      let asking = record session { failure_stage = "LIVE_STREAM_START_ERROR" } in
      let still : Connected asking = record { connected = c.connected; live = c.live } in
      Sound-attempt script.send_start asking _ (Connected-Holds asking still) (
        Sound-await_answer script.start_answer asking _ (Connected-Holds asking still) λ code.
          let answered = record asking {
            start_response_code = some code;
            start_accepted = accepts code;
          } in
          let here : Connected answered = record { connected = c.connected; live = c.live } in
          Sound-require (accepts code) _ answered next (Connected-Holds answered here)
            λ taken. n answered here refl taken)

  -- The session that a stop request leaves.
  abbrev Kept : LiveSession → LiveSession → Type 0
  Kept session later =
      Connected later
      × (later.lease ≡ session.lease)
      × (later.start_accepted ≡ session.start_accepted)

  request_stop-Kept :
      (sent : Option Fault) (a : Answer) (session : LiveSession)
      → Connected session
      → Kept session (request_stop sent a session).0
  unfolding request_stop
  request_stop-Kept (some fault) a session c = (c, refl, refl)
  request_stop-Kept none (no_answer fault) session c = (c, refl, refl)
  request_stop-Kept none (answer code) session c =
      (record { connected = c.connected; live = c.live }, refl, refl)

  Sound-if : (b : Bool) (x y : Ended) → Sound x → Sound y → Sound (if b then x else y)
  Sound-if true x y p q = p
  Sound-if false x y p q = q

  stop_stream-Sound :
      (session : LiveSession) (next : LiveSession → Ended)
      → Connected session
      → ((later : LiveSession) → Kept session later → Sound (next later))
      → Sound (stop_stream script session next)
  unfolding stop_stream
  stop_stream-Sound session next c n =
      let asked = request_stop script.send_stop script.stop_answer session in
      let kept = request_stop-Kept script.send_stop script.stop_answer session c in
      Sound-if script.open_after_wait _ _
        (Sound-attempt asked.1 asked.0 next (Connected-Holds asked.0 kept.0) (n asked.0 kept))
        (n session (c, refl, refl))

  follow_stream-Sound :
      (session : LiveSession)
      → Connected session
      → session.lease ≡ adopted
      → session.start_accepted ≡ true
      → Sound (follow_stream script session)
  unfolding follow_stream
  follow_stream-Sound session c taken accepted =
      Sound-attempt script.wait session _ (Connected-Holds session c) (
        stop_stream-Sound session _ c
          λ later kept. (Connected-Holds later kept.0, (kept.2 ∙ accepted, kept.1 ∙ taken)))

  pub stream_body-Sound : Sound (stream_body script)
  unfolding stream_body
  stream_body-Sound =
      let leased = record fresh { lease = held } in
      let parts = record leased { has_host = true; has_connection = true } in
      find_camera-Sound _ (
        make_parts-Sound leased _ (unowned leased refl refl refl refl refl)
          (unowned (record leased { has_host = true }) refl refl refl refl refl)
          (wake_camera-Sound parts _
            (record { connected = refl; live = λ h. absurd (ground (arith, h)) })
            λ stage.
              let awake = record parts { failure_stage = stage; lease = adopted } in
              authenticate-Sound awake _
                (record { connected = refl; live = λ h. absurd (ground (arith, h)) })
                λ ready c same. start_stream-Sound ready _ c λ started d still accepted.
                  follow_stream-Sound started d (still ∙ same) accepted))
    where
      unowned :
          (s : LiveSession)
          → s.is_decrypting ≡ false
          → s.has_sinks ≡ false
          → s.is_armed ≡ false
          → s.has_connection ≡ false
          → s.lease ≡ held
          → Holds s
      unowned s p q r t u = record {
        owned = λ h. ground (arith, h, p, q, r);
        armed_protocol = λ h. ground (arith, h, r);
        adopted_owned = λ h. cc (h, u);
      }
