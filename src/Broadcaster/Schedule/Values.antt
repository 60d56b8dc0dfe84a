-- ===== src/Broadcaster/Schedule/Values.antt =====
-- What the listeners of agent/util/broadcaster/broadcast.go get, under any order of the steps.
use droidmole.Base.{
  ℕ, suc, ◌+◌, ◌^◌, ◌≤◌, ◌<◌, ◌≡◌, refl, inl, inr, false, Option, none, some, List, [], ◌∷◌, arith,
  ltb, leb, ◌==◌, if◌then◌else◌, ltb→lt, Bool-cases, length, All, All-map, All-append, All-modify,
}
use droidmole.Broadcaster.{
  Broadcaster, Listener, new, new_listener, broadcast, close, waits, received, ended, wait_rest,
  wait_start,
}
use droidmole.Broadcaster.Schedule.{
  Phase, idle, blocked, woken, dead, Client, System, Event, broadcasts, closes, joins, runs, wake,
  fresh, finish, run_phase, run_client, step, run, start,
}
use droidmole.Broadcaster.Schedule.Safety.{history-step}

module _ {T : Type 0} where
  -- The value of the `g`th broadcast, counted from 1, in a history with the newest value first.
  abbrev pub nth_value : List (Option T) → ℕ → Option (Option T)
  nth_value [] g = none
  nth_value (v ∷ vs) g = if g == suc (length vs) then some v else nth_value vs g

  -- The generations lie below `bound` and fall strictly.
  abbrev pub Falling : ℕ → List (ℕ × Option T) → Type 0
  Falling bound [] = Unit
  Falling bound ((g, v) ∷ rest) = (g < bound) × Falling g rest

  -- Each value is that of its generation.
  abbrev pub Genuine : List (Option T) → List (ℕ × Option T) → Type 0
  Genuine history [] = Unit
  Genuine history ((g, v) ∷ rest) = (nth_value history g ≡ some v) × Genuine history rest

  -- What holds of the values that a listener got.
  pub record GotInv (history : List (Option T)) (c : Client T) : Type 0 where
    pub behind : c.listener.last_generation ≤ length history
    pub falling : Falling (c.listener.last_generation + 1) c.got
    pub genuine : Genuine history c.got

  -- The broadcaster holds the value of its generation.
  pub record ValueInv (s : System T) : Type 0 where
    pub counted : s.broadcaster.generation ≡ length s.history
    pub newest :
        0 < length s.history → nth_value s.history (length s.history) ≡ some s.broadcaster.value
    pub clients_got : All (GotInv s.history) s.clients

  Genuine-cons :
      (history : List (Option T)) (v : Option T) (bound : ℕ) (got : List (ℕ × Option T))
      → bound ≤ length history + 1
      → Falling bound got
      → Genuine history got
      → Genuine (v ∷ history) got
  Genuine-cons history v bound [] l f h = tt
  Genuine-cons history v bound ((g, w) ∷ got) l (fg, f) (hg, h) =
      (ground arith, Genuine-cons history v g got (omega arith) f h)

  Falling-weaken : (a b : ℕ) (got : List (ℕ × Option T)) → a ≤ b → Falling a got → Falling b got
  Falling-weaken a b [] l f = tt
  Falling-weaken a b ((g, v) ∷ got) l f = (omega arith, f.1)

  module _ (s : System T) (i : ValueInv s) where
    GotInv-take :
        (c : Client T)
        → GotInv s.history c
        → c.listener.last_generation < s.broadcaster.generation
        → GotInv s.history (record c {
          listener = record { last_generation = s.broadcaster.generation };
          phase = idle;
          got = (s.broadcaster.generation, s.broadcaster.value) ∷ c.got;
        })
    GotInv-take c h l = record {
      behind = omega (arith, i.counted);
      falling = (omega arith, Falling-weaken _ _ c.got (omega arith) h.falling);
      genuine = (rw i.counted (i.newest (omega (arith, i.counted))), h.genuine);
    }

    GotInv-phase :
        (c : Client T) (p : Phase) → GotInv s.history c → GotInv s.history (record c { phase = p })
    GotInv-phase c p h = record { behind = h.behind; falling = h.falling; genuine = h.genuine }

    rest-GotInv :
        (c : Client T)
        → GotInv s.history c
        → let (o, l) = wait_rest s.broadcaster c.listener in
          GotInv s.history (finish s.broadcaster c o l)
    unfolding wait_rest finish
    rest-GotInv c h = elim (Bool-cases (ltb c.listener.last_generation s.broadcaster.generation)) [
      | inl new_value ↦ rw new_value (GotInv-take c h (ltb→lt _ _ new_value))
      | inr old ↦ rw old (elim (Bool-cases s.broadcaster.closed) [
        | inl over ↦ rw over (GotInv-phase c idle h)
        | inr on ↦ rw on (GotInv-phase c dead h)
      ])
    ]

    start-GotInv :
        (c : Client T)
        → GotInv s.history c
        → let (o, l) = wait_start s.broadcaster c.listener in
          GotInv s.history (finish s.broadcaster c o l)
    unfolding wait_start finish
    start-GotInv c h = elim (Bool-cases s.broadcaster.closed) [
      | inl over ↦ rw over (GotInv-phase c idle h)
      | inr on ↦
          rw on (elim (Bool-cases (leb s.broadcaster.generation c.listener.last_generation)) [
            | inl old ↦ rw old (GotInv-phase c blocked h)
            | inr new_value ↦ rw new_value (rw on at (rest-GotInv c h))
          ])
    ]

    run_phase-GotInv :
        (p : Phase) (c : Client T)
        → GotInv s.history c
        → GotInv s.history (run_phase p s.broadcaster c)
    unfolding run_phase
    run_phase-GotInv idle c h = start-GotInv c h
    run_phase-GotInv woken c h = rest-GotInv c h
    run_phase-GotInv blocked c h = h
    run_phase-GotInv dead c h = h

  -- A step of another kind keeps a listener's values.
  GotInv-longer :
      (history : List (Option T)) (v : Option T) (c : Client T)
      → GotInv history c
      → GotInv (v ∷ history) (wake c)
  unfolding wake
  GotInv-longer history v c h = record {
    behind = omega (arith, h.behind);
    falling = h.falling;
    genuine = Genuine-cons history v _ c.got (omega (arith, h.behind)) h.falling h.genuine;
  }

  wake-GotInv :
      (history : List (Option T)) (c : Client T) → GotInv history c → GotInv history (wake c)
  unfolding wake
  wake-GotInv history c h = record { behind = h.behind; falling = h.falling; genuine = h.genuine }

  fresh-GotInv : (history : List (Option T)) → GotInv history fresh
  unfolding fresh new_listener
  fresh-GotInv history = record { behind = omega arith; falling = tt; genuine = tt }

  step-ValueInv :
      (s : System T) (e : Event T)
      → length s.history + 1 < 2 ^ 64
      → ValueInv s
      → ValueInv (step s e)
  unfolding step
  step-ValueInv s (broadcasts v) l i = record {
    counted = unfold broadcast in omega (arith, i.counted);
    newest = λ _. unfold broadcast in ground arith;
    clients_got =
        All-map (GotInv s.history) (GotInv (v ∷ s.history)) wake s.clients
          (GotInv-longer s.history v) i.clients_got;
  }
  step-ValueInv s closes l i = record {
    counted = unfold close in i.counted;
    newest = unfold close in i.newest;
    clients_got =
        All-map (GotInv s.history) (GotInv s.history) wake s.clients (wake-GotInv s.history)
          i.clients_got;
  }
  step-ValueInv s joins l i = record {
    counted = i.counted;
    newest = i.newest;
    clients_got =
        All-append (GotInv s.history) s.clients _ i.clients_got (fresh-GotInv s.history, tt);
  }
  step-ValueInv s (runs n) l i = record {
    counted = i.counted;
    newest = i.newest;
    clients_got =
        All-modify (GotInv s.history) n (run_client s.broadcaster) s.clients
          (λ c. unfold run_client in run_phase-GotInv s i c.phase c) i.clients_got;
  }

  run-ValueInv :
      (es : List (Event T)) (s : System T)
      → length s.history + length es < 2 ^ 64
      → ValueInv s
      → ValueInv (run s es)
  unfolding run
  run-ValueInv [] s l i = i
  run-ValueInv (e ∷ es) s l i =
      run-ValueInv es (step s e) (omega (arith, history-step s e))
        (step-ValueInv s e (omega arith) i)

  -- After any schedule of less than 2 ^ 64 events, the values that a listener got are values that
  -- were broadcast, each that of the generation it was got for, in the order of the broadcasts and
  -- none twice; and the listener is not ahead of the broadcasts.
  pub run_got :
      (es : List (Event T))
      → length es < 2 ^ 64
      → All (GotInv (run start es).history) (run start es).clients
  run_got es l = (run-ValueInv es start (unfold start in omega arith) start-ValueInv).clients_got
    where
      start-ValueInv : ValueInv (start {T = T})
      start-ValueInv =
          unfold start new in
          record { counted = refl; newest = λ h. absurd (omega arith); clients_got = tt }

  -- A listener that is not ahead gets a value as soon as it is broadcast, and then waits for the next.
  pub wait_start-broadcast :
      (b : Broadcaster T) (v : Option T) (l : Listener)
      → b.closed ≡ false
      → l.last_generation ≤ b.generation
      → b.generation + 1 < 2 ^ 64
      → let (o, l') = wait_start (broadcast b v) l in
        (o ≡ received v) × ((wait_start (broadcast b v) l').0 ≡ waits)
  unfolding wait_start broadcast wait_rest
  wait_start-broadcast b v l opened behind small = ground arith

  -- After the close a call of `Wait` returns the end at once, also where a value was broadcast that
  -- the listener has not got; a listener that was waiting when both happened still gets the value.
  pub wait-close :
      (b : Broadcaster T) (v : Option T) (l : Listener)
      → l.last_generation ≤ b.generation
      → b.generation + 1 < 2 ^ 64
      → (wait_start (close (broadcast b v)) l ≡ (ended, l))
        × ((wait_rest (close (broadcast b v)) l).0 ≡ received v)
  unfolding wait_start wait_rest broadcast close
  wait-close b v l behind small = (refl, ground arith)
