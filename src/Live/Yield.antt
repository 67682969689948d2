-- ===== src/Live/Yield.antt =====
-- live_http.py: a recording gets the camera, and the consumers outlive it.
use ha_reolink_battery.Base.{
  ℕ, ◌-◌, ◌≤◌, ◌<◌, ◌≡◌, refl, inl, inr, Bool, true, false, not, ◌&&◌, Option, none, some, List, [],
  ◌∷◌, ◌++◌, arith, if◌then◌else◌, nat_eq, length, length-append, All, Bool-cases,
}
use ha_reolink_battery.Live.{
  Consumer, Hub, Item, Kind, Task, video, audio, eof, no_task, running, done, add_consumer,
  ask_to_stop, close_all, is_active, is_full, is_running, offer, put, remove_consumer, set_stop,
  start_if_free, start_producer, stop, stop_if, without_key,
}

-- No queue holds more than its size.
abbrev pub Bounded : List Consumer → Type 0
Bounded cs = All (λ c. length c.items ≤ c.maxsize) cs

-- A producer that runs has a stop event, and while a recording has priority it is set.
abbrev pub Yielding : ℕ → Task → Option Bool → Type 0
Yielding depth no_task stop = stop ≡ none
Yielding depth running none = ⊥
Yielding depth running (some b) = 0 < depth → b ≡ true
Yielding depth done stop = Unit

pub record IsGuarded (h : Hub) : Type 0 where
  pub yields : Yielding h.recording_priority_depth h.producer h.stop_event
  pub video_bounded : Bounded h.video_queues
  pub audio_bounded : Bounded h.audio_queues

Bounded-append :
    (cs : List Consumer) (c : Consumer)
    → Bounded cs
    → length c.items ≤ c.maxsize
    → Bounded (cs ++ c ∷ [])
Bounded-append [] c b h = (h, tt)
Bounded-append (x ∷ cs) c b h = (b.0, Bounded-append cs c b.1 h)

Bounded-without_key : (key : ℕ) (cs : List Consumer) → Bounded cs → Bounded (without_key key cs)
unfolding without_key
Bounded-without_key key [] b = tt
Bounded-without_key key (c ∷ cs) b = elim (Bool-cases (nat_eq c.key key)) [
  | inl same ↦ rw same (Bounded-without_key key cs b.1)
  | inr other ↦ rw other (b.0, Bounded-without_key key cs b.1)
]

put-bound : (x : Item) (c : Consumer) → is_full c ≡ false → length (put x c).items ≤ c.maxsize
put-bound x c h = ground (arith, length-append c.items (x ∷ []))

abbrev Offered : List Consumer × Bool → Type 0
Offered x = Bounded x.0

Bounded-if :
    (full : Bool) (cs ds : List Consumer) (more : Bool)
    → (full ≡ true → Bounded cs)
    → (full ≡ false → Bounded ds)
    → Offered (if full then (cs, true) else (ds, more))
Bounded-if true cs ds more h k = h refl
Bounded-if false cs ds more h k = k refl

pub Bounded-offer : (x : Item) (cs : List Consumer) → Bounded cs → Bounded (offer x cs).0
unfolding offer
Bounded-offer x [] b = tt
Bounded-offer x (c ∷ cs) b =
    Bounded-if (is_full c) (c ∷ cs) (put x c ∷ (offer x cs).0) (offer x cs).1 (λ _. b)
      (λ room. (put-bound x c room, Bounded-offer x cs b.1))

closed-bound :
    (full : Bool) (c : Consumer)
    → is_full c ≡ full
    → length c.items ≤ c.maxsize
    → let c' = if full then c else put eof c in length c'.items ≤ c'.maxsize
closed-bound true c h b = b
closed-bound false c h b = put-bound eof c h

pub Bounded-close_all : (cs : List Consumer) → Bounded cs → Bounded (close_all cs)
unfolding close_all
Bounded-close_all [] b = tt
Bounded-close_all (c ∷ cs) b = (closed-bound (is_full c) c refl b.0, Bounded-close_all cs b.1)

abbrev pub Yields : Hub → Type 0
Yields h = Yielding h.recording_priority_depth h.producer h.stop_event

Yielding-set_stop :
    (depth : ℕ) (t : Task) (s : Option Bool) → Yielding depth t s → Yielding depth t (set_stop s)
Yielding-set_stop depth no_task none h = h
Yielding-set_stop depth no_task (some b) h = cc
Yielding-set_stop depth running none h = h
Yielding-set_stop depth running (some b) h = λ _. refl
Yielding-set_stop depth done s h = tt

-- A stop event that is set serves every depth; without priority any will do.
pub Yielding-deeper :
    (depth depth' : ℕ) (t : Task) (s : Option Bool)
    → is_running t ≡ true
    → Yielding depth t s
    → Yielding depth' t (set_stop s)
Yielding-deeper depth depth' no_task s r h = cc
Yielding-deeper depth depth' running none r h = h
Yielding-deeper depth depth' running (some b) r h = λ _. refl
Yielding-deeper depth depth' done s r h = cc

pub Yielding-idle :
    (depth depth' : ℕ) (t : Task) (s : Option Bool)
    → is_running t ≡ false
    → Yielding depth t s
    → Yielding depth' t s
Yielding-idle depth depth' no_task s r h = h
Yielding-idle depth depth' running s r h = cc
Yielding-idle depth depth' done s r h = tt

pub Yielding-shallower :
    (depth : ℕ) (t : Task) (s : Option Bool) → Yielding depth t s → Yielding (depth - 1) t s
Yielding-shallower depth no_task s h = h
Yielding-shallower depth running none h = h
Yielding-shallower depth running (some b) h = λ p. h (omega (arith, p))
Yielding-shallower depth done s h = tt

pub IsGuarded-if :
    (b : Bool) (h k : Hub)
    → (b ≡ true → IsGuarded h)
    → (b ≡ false → IsGuarded k)
    → IsGuarded (if b then h else k)
IsGuarded-if true h k p q = p refl
IsGuarded-if false h k p q = q refl

module _ (h : Hub) (g : IsGuarded h) where
  start_producer-IsGuarded : h.recording_priority_depth ≡ 0 → IsGuarded (start_producer h)
  unfolding start_producer
  start_producer-IsGuarded free = record {
    yields = λ p. absurd (omega (arith, p, free));
    video_bounded = g.video_bounded;
    audio_bounded = g.audio_bounded;
  }

  pub start_if_free-IsGuarded : IsGuarded (start_if_free h)
  unfolding start_if_free
  start_if_free-IsGuarded =
      IsGuarded-if (nat_eq h.recording_priority_depth 0 && not (is_active h)) (start_producer h) h
        (λ p. start_producer-IsGuarded (ground arith)) (λ _. g)

  pub ask_to_stop-IsGuarded : IsGuarded (ask_to_stop h)
  unfolding ask_to_stop
  ask_to_stop-IsGuarded = record {
    yields = Yielding-set_stop h.recording_priority_depth h.producer h.stop_event g.yields;
    video_bounded = g.video_bounded;
    audio_bounded = g.audio_bounded;
  }

  pub add_consumer-IsGuarded :
      (kind : Kind) (c : Consumer) → length c.items ≤ c.maxsize → IsGuarded (add_consumer kind c h)
  add_consumer-IsGuarded video c b = record {
    yields = g.yields;
    video_bounded = Bounded-append h.video_queues c g.video_bounded b;
    audio_bounded = g.audio_bounded;
  }
  add_consumer-IsGuarded audio c b = record {
    yields = g.yields;
    video_bounded = g.video_bounded;
    audio_bounded = Bounded-append h.audio_queues c g.audio_bounded b;
  }

  pub remove_consumer-IsGuarded : (kind : Kind) (key : ℕ) → IsGuarded (remove_consumer kind key h)
  remove_consumer-IsGuarded video key = record {
    yields = g.yields;
    video_bounded = Bounded-without_key key h.video_queues g.video_bounded;
    audio_bounded = g.audio_bounded;
  }
  remove_consumer-IsGuarded audio key = record {
    yields = g.yields;
    video_bounded = g.video_bounded;
    audio_bounded = Bounded-without_key key h.audio_queues g.audio_bounded;
  }

  pub stop_if-IsGuarded : (b : Bool) → IsGuarded (stop_if b h)
  stop_if-IsGuarded true = ask_to_stop-IsGuarded
  stop_if-IsGuarded false = g
