-- ===== src/Broadcaster/Schedule.antt =====
-- One broadcaster and any number of listeners of agent/util/broadcaster/broadcast.go, under any order
-- of their steps.
pub mod Safety
pub mod Values
use droidmole.Base.{
  modify, ℕ, zero, suc, ◌+◌, ◌-◌, ◌*◌, ◌/◌, ◌%◌, ◌^◌, ◌≤◌, ◌<◌, min, ◌≡◌, refl, sym, ap, ◌∙◌, subst,
  fun_ext, ◌≢◌, ◌↔◌, ◌⊎◌, inl, inr, Bool, true, false, not, ◌&&◌, ◌||◌, Option, none, some, List,
  [], ◌∷◌, ◌++◌, map, append-nil, append_assoc, arith, ltb, leb, ◌==◌, if◌then◌else◌, ltb→lt,
  lt→ltb, leb→le, le→leb, lt→leb_false, ==_iff, tests, Bool-cases, Option-cases, length, get_elem?,
  take, drop, replicate, All, length-append, take-append_self, drop-append_self, take-append-drop,
  length-take, length-drop, length-replicate, Bytes, bytes, bytes_eq, bytes_eq_refl, eq_of_bytes_eq,
  IsByte, IsU32, IsU64, u32, put_u32, put_u64, get_u32, get_u64, slice, get_u32-put_u32,
  get_u64-put_u64,
}
use droidmole.Broadcaster
use droidmole.Broadcaster.{
  Broadcaster, Listener, new, new_listener, broadcast, close, Outcome, waits, received, ended,
  crashed, wait_rest, wait_start,
}

pub data Phase : Type 0 where
  -- outside `Wait`
  idle : Phase
  -- in `cond.Wait`
  blocked : Phase
  -- woken, and not yet on with `Wait`
  woken : Phase
  -- panicked
  dead : Phase

-- A listener with its place in `Wait`, and the values that it got, with their generations, newest
-- first.
pub record Client (T : Type 0) : Type 0 where
  pub listener : Listener
  pub phase : Phase
  pub got : List (ℕ × Option T)

-- `history` has the values that were broadcast, newest first; the code does not keep it.
pub record System (T : Type 0) : Type 0 where
  pub broadcaster : Broadcaster T
  pub clients : List (Client T)
  pub history : List (Option T)

pub data Event (T : Type 0) : Type 0 where
  broadcasts : Option T → Event T
  closes : Event T
  -- `Listener()`
  joins : Event T
  -- the listener of this number calls `Wait`, or goes on with it
  runs : ℕ → Event T

wake_phase : Phase → Phase
wake_phase blocked = woken
wake_phase p = p

module _ {T : Type 0} where
  wake : Client T → Client T
  unfolding wake_phase
  wake c = record c { phase = wake_phase c.phase }

  fresh : Client T
  fresh = record { listener = new_listener; phase = idle; got = [] }

  -- What a step of `Wait` makes of the listener's place.
  finish : Broadcaster T → Client T → Outcome T → Listener → Client T
  finish b c waits l = record c { listener = l; phase = blocked }
  finish b c (received v) l = record c {
    listener = l;
    phase = idle;
    got = (b.generation, v) ∷ c.got;
  }
  finish b c ended l = record c { listener = l; phase = idle }
  finish b c crashed l = record c { listener = l; phase = dead }

  run_phase : Phase → Broadcaster T → Client T → Client T
  unfolding finish
  run_phase idle b c = let (o, l) = wait_start b c.listener in finish b c o l
  run_phase woken b c = let (o, l) = wait_rest b c.listener in finish b c o l
  run_phase blocked b c = c
  run_phase dead b c = c

  pub run_client : Broadcaster T → Client T → Client T
  unfolding run_phase
  run_client b c = run_phase c.phase b c

  unfoldable pub step : System T → Event T → System T
  unfolding wake fresh run_client
  step s (broadcasts v) = record {
    broadcaster = broadcast s.broadcaster v;
    clients = map wake s.clients;
    history = v ∷ s.history;
  }
  step s closes = record s { broadcaster = close s.broadcaster; clients = map wake s.clients }
  step s joins = record s { clients = s.clients ++ fresh ∷ [] }
  step s (runs i) = record s { clients = modify i (run_client s.broadcaster) s.clients }

  unfoldable pub run : System T → List (Event T) → System T
  run s [] = s
  run s (e ∷ es) = run (step s e) es

  unfoldable pub start : System T
  start = record { broadcaster = new; clients = []; history = [] }
