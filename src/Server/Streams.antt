-- ===== src/Server/Streams.antt =====
-- What a new state or display stream of agent/server gets first.
use droidmole.Base.{
  ℕ, suc, ◌+◌, ◌^◌, ◌≤◌, ◌<◌, ◌≡◌, refl, ◌∙◌, Bool, true, false, none, some, List, [], ◌∷◌, arith,
  if◌then◌else◌, length, All, Bytes, bytes,
}
use droidmole.Go.{Error, Result, ok, err, panic, continue}
use droidmole.Broadcaster
use droidmole.Broadcaster.{Broadcaster, Listener, new_listener, received, waits, wait_start}
use droidmole.Server.{
  error, stopped, starting, running, AgentState, Server, new, heartbeat, on_emulator_exit,
  on_emulator_started, on_emulator_frame, failed_precondition_with, started, start_emulator,
  stop_emulator, send_input, require_running, broadcast_state, agent_state, publish, may_start,
}
use droidmole.Server.Run.{
  Event, starts, stops, inputs, asks, exits, boots, frames, beats, step, run, begin,
}

-- A first state is published, by less than `k` broadcasts.
pub record Published (k : ℕ) (b : Broadcaster AgentState) : Type 0 where
  pub some_value : (a : AgentState) × (b.value ≡ some a)
  pub positive : 0 < b.generation
  pub few : b.generation < k
  pub opened : b.closed ≡ false

abbrev pub IsNoFrame : Event → Type 0
IsNoFrame (frames f) = ⊥
IsNoFrame _ = Unit

module _ (message : Error → Bytes) where
  broadcast-Published :
      (k : ℕ) (a : AgentState) (b : Broadcaster AgentState)
      → k < 2 ^ 64
      → Published k b
      → Published (suc k) (Broadcaster.broadcast b (some a))
  unfolding Broadcaster.broadcast
  broadcast-Published k a b l h = record {
    some_value = (a, refl);
    positive = omega (arith, h.positive, h.few);
    few = omega (arith, h.few);
    opened = h.opened;
  }

  Published-more : (k : ℕ) (b : Broadcaster AgentState) → Published k b → Published (suc k) b
  Published-more k b h = record {
    some_value = h.some_value;
    positive = h.positive;
    few = omega (arith, h.few);
    opened = h.opened;
  }

  broadcast_state-Published :
      (k : ℕ) (s : Server)
      → k < 2 ^ 64
      → Published k s.state_broadcaster
      → Published (suc k) (broadcast_state message s).1.state_broadcaster
  unfolding broadcast_state
  broadcast_state-Published k s l h = go (agent_state message s.state s.state_error)
    where
      go : (r : Result AgentState) → Published (suc k) (continue r publish s).1.state_broadcaster
      go (ok a) = broadcast-Published k a s.state_broadcaster l h
      go (err e) = Published-more k s.state_broadcaster h
      go panic = Published-more k s.state_broadcaster h

  -- The handlers that publish nothing.
  quiet :
      (answer : Result (Unit {0})) (given : Bool) (s : Server)
      → ((stop_emulator answer s).1.state_broadcaster ≡ s.state_broadcaster)
        × ((send_input given answer s).1.state_broadcaster ≡ s.state_broadcaster)
        × ((require_running s).1.state_broadcaster ≡ s.state_broadcaster)
  unfolding stop_emulator send_input require_running
  quiet answer given s = ground arith

  start-Published :
      (k : ℕ) (answer : Result ℕ) (s : Server) (b : Bool)
      → k < 2 ^ 64
      → Published k s.state_broadcaster
      → Published
          (suc k)
          (if b
            then started message answer s
            else failed_precondition_with (bytes "emulator already running") s).1.state_broadcaster
  unfolding started
  start-Published k (ok id) s true l h =
      broadcast_state-Published k (record s { state = starting; emu = some id; state_error = none })
        l h
  start-Published k (err e) s true l h = Published-more k s.state_broadcaster h
  start-Published k panic s true l h = Published-more k s.state_broadcaster h
  start-Published k answer s false l h = Published-more k s.state_broadcaster h

  step-Published :
      (k : ℕ) (e : Event) (s : Server)
      → k < 2 ^ 64
      → Published k s.state_broadcaster
      → Published (suc k) (step message e s).1.state_broadcaster
  unfolding step
  step-Published k (starts answer) s l h =
      unfold start_emulator in start-Published k answer s (may_start s.state) l h
  step-Published k (stops answer) s l h =
      rw (quiet answer true s).0 (Published-more k s.state_broadcaster h)
  step-Published k (inputs given answer) s l h =
      rw (quiet answer given s).1 (Published-more k s.state_broadcaster h)
  step-Published k asks s l h = rw (quiet panic true s).2 (Published-more k s.state_broadcaster h)
  step-Published k (exits (some e)) s l h =
      unfold on_emulator_exit in
      broadcast_state-Published k (record s { state = error; state_error = some e }) l h
  step-Published k (exits none) s l h =
      unfold on_emulator_exit in
      broadcast_state-Published k (record s { state = stopped; state_error = none }) l h
  step-Published k boots s l h =
      unfold on_emulator_started in broadcast_state-Published k (record s { state = running }) l h
  step-Published k (frames f) s l h =
      unfold on_emulator_frame in Published-more k s.state_broadcaster h
  step-Published k beats s l h = unfold heartbeat in broadcast_state-Published k s l h

  run-Published :
      (es : List Event) (k : ℕ) (s : Server)
      → k + length es ≤ 2 ^ 64
      → Published k s.state_broadcaster
      → (j : ℕ) × Published j (run message s es).state_broadcaster
  unfolding run
  run-Published [] k s l h = (k, h)
  run-Published (e ∷ es) k s l h =
      run-Published es (suc k) (step message e s).1 (omega arith)
        (step-Published k e s (omega arith) h)

  begin-Published : Published 2 (begin message).state_broadcaster
  unfolding begin new broadcast_state agent_state publish Broadcaster.broadcast Broadcaster.new
  begin-Published = record {
    some_value = (_, refl);
    positive = omega arith;
    few = omega arith;
    opened = refl;
  }

  at_once :
      (k : ℕ) (b : Broadcaster AgentState)
      → Published k b
      → (a : AgentState) × ((wait_start b new_listener).0 ≡ received (some a))
  unfolding wait_start new_listener
  at_once k b h = let (a, e) = h.some_value in (a, ground arith)

  -- Whoever starts to stream the state gets a state at once, whatever happened before, in at most
  -- 2 ^ 64 - 2 events.
  pub first_state_at_once :
      (es : List Event)
      → length es + 2 ≤ 2 ^ 64
      → (a : AgentState) × ((wait_start
            (run message (begin message) es).state_broadcaster
            new_listener).0
          ≡ received (some a))
  first_state_at_once es l =
      let (k, h) = run-Published es 2 (begin message) (omega arith) begin-Published in
      at_once k (run message (begin message) es).state_broadcaster h

  frame_broadcaster-broadcast_state :
      (s : Server) → (broadcast_state message s).1.frame_broadcaster ≡ s.frame_broadcaster
  unfolding broadcast_state publish
  frame_broadcaster-broadcast_state s = ground arith

  frame_broadcaster-step :
      (e : Event) (s : Server)
      → IsNoFrame e
      → (step message e s).1.frame_broadcaster ≡ s.frame_broadcaster
  unfolding step start_emulator started stop_emulator send_input require_running on_emulator_exit
      on_emulator_started heartbeat broadcast_state
  frame_broadcaster-step (frames f) s h = absurd h
  frame_broadcaster-step (starts (ok id)) s h = ground arith
  frame_broadcaster-step (exits (some e)) s h = ground arith
  frame_broadcaster-step _ s h = ground arith

  -- Until the emulator has sent a frame, a new display stream waits: no first frame is there for it,
  -- whatever else happened to the server.
  pub display_waits :
      (es : List Event) (s : Server)
      → All IsNoFrame es
      → s.frame_broadcaster ≡ Broadcaster.new
      → wait_start (run message s es).frame_broadcaster new_listener ≡ (waits, new_listener)
  unfolding run
  display_waits [] s h e = unfold wait_start new_listener Broadcaster.new in rw e
  display_waits (x ∷ es) s h e =
      display_waits es (step message x s).1 h.1 (frame_broadcaster-step x s h.0 ∙ e)
