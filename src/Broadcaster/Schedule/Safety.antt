-- ===== src/Broadcaster/Schedule/Safety.antt =====
-- No schedule makes `Wait` panic, and none makes a listener sleep through a value or the close.
use droidmole.Base.{
  All-map, All-append, All-modify, ◌+◌, ◌^◌, ◌≤◌, ◌<◌, ◌≡◌, refl, ◌≢◌, ◌⊎◌, true, false, Option,
  List, [], ◌∷◌, arith, length, All,
}
use droidmole.Broadcaster.{Broadcaster, new, new_listener, broadcast, close, wait_rest, wait_start}
use droidmole.Broadcaster.Schedule.{
  blocked, woken, dead, Client, System, Event, broadcasts, closes, joins, runs, wake, fresh,
  run_client, step, run, start,
}

module _ {T : Type 0} where
  -- What holds of a listener between two steps.
  pub record ClientInv (b : Broadcaster T) (c : Client T) : Type 0 where
    pub seen : c.listener.last_generation ≤ b.generation
    pub asleep :
        c.phase ≡ blocked → (b.generation ≤ c.listener.last_generation) × (b.closed ≡ false)
    pub called : c.phase ≡ woken → (c.listener.last_generation < b.generation) ⊎ (b.closed ≡ true)
    pub alive : c.phase ≢ dead

  -- The generation counts the broadcasts, as long as it does not wrap.
  pub record Inv (s : System T) : Type 0 where
    pub counted : s.broadcaster.generation ≡ length s.history
    pub clients_ok : All (ClientInv s.broadcaster) s.clients

  run_client-ClientInv :
      (b : Broadcaster T) (c : Client T) → ClientInv b c → ClientInv b (run_client b c)
  unfolding run_client wait_start wait_rest
  run_client-ClientInv b c h = ground arith

  wake-broadcast :
      (b : Broadcaster T) (v : Option T) (c : Client T)
      → b.generation + 1 < 2 ^ 64
      → ClientInv b c
      → ClientInv (broadcast b v) (wake c)
  unfolding wake broadcast
  wake-broadcast b v c l h = ground arith

  wake-close : (b : Broadcaster T) (c : Client T) → ClientInv b c → ClientInv (close b) (wake c)
  unfolding wake close
  wake-close b c h = ground arith

  fresh-ClientInv : (b : Broadcaster T) → ClientInv b fresh
  unfolding fresh new_listener
  fresh-ClientInv b = ground arith

  -- One step, while the generation does not wrap.
  step-Inv : (s : System T) (e : Event T) → length s.history + 1 < 2 ^ 64 → Inv s → Inv (step s e)
  unfolding step
  step-Inv s (broadcasts v) l h = record {
    counted = unfold broadcast in omega (arith, h.counted);
    clients_ok =
        All-map (ClientInv s.broadcaster) _ wake s.clients
          (λ c. wake-broadcast s.broadcaster v c (omega (arith, h.counted))) h.clients_ok;
  }
  step-Inv s closes l h = record {
    counted = unfold close in h.counted;
    clients_ok =
        All-map (ClientInv s.broadcaster) _ wake s.clients (wake-close s.broadcaster) h.clients_ok;
  }
  step-Inv s joins l h = record {
    counted = h.counted;
    clients_ok =
        All-append (ClientInv s.broadcaster) s.clients _ h.clients_ok
          (fresh-ClientInv s.broadcaster, tt);
  }
  step-Inv s (runs i) l h = record {
    counted = h.counted;
    clients_ok =
        All-modify (ClientInv s.broadcaster) i (run_client s.broadcaster) s.clients
          (run_client-ClientInv s.broadcaster) h.clients_ok;
  }

  pub history-step : (s : System T) (e : Event T) → length (step s e).history ≤ length s.history + 1
  unfolding step
  history-step s (broadcasts v) = omega arith
  history-step s closes = omega arith
  history-step s joins = omega arith
  history-step s (runs i) = omega arith

  run-Inv :
      (es : List (Event T)) (s : System T)
      → length s.history + length es < 2 ^ 64
      → Inv s
      → Inv (run s es)
  unfolding run
  run-Inv [] s l h = h
  run-Inv (e ∷ es) s l h =
      run-Inv es (step s e) (omega (arith, history-step s e)) (step-Inv s e (omega arith) h)

  start-Inv : Inv (start {T = T})
  unfolding start new
  start-Inv = record { counted = refl; clients_ok = tt }

  -- After any schedule of less than 2 ^ 64 events, no call of `Wait` has panicked, a listener that
  -- waits has got the newest value and the broadcaster is not closed, and one that was woken has a
  -- value or the close to return.
  pub run_safe :
      (es : List (Event T))
      → length es < 2 ^ 64
      → All (ClientInv (run start es).broadcaster) (run start es).clients
  run_safe es l = (run-Inv es start (unfold start in omega arith) start-Inv).clients_ok
