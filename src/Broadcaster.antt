-- ===== src/Broadcaster.antt =====
-- agent/util/broadcaster/broadcast.go: the newest value, handed to listeners that wait for it.
-- Every method holds the mutex, so it is one step; `Wait` gives the mutex up in `cond.Wait`, and is
-- two steps, before and after.
pub mod Schedule
mod Tests
use droidmole.Base.{
  ℕ, zero, suc, ◌+◌, ◌-◌, ◌*◌, ◌/◌, ◌%◌, ◌^◌, ◌≤◌, ◌<◌, min, ◌≡◌, refl, sym, ap, ◌∙◌, subst,
  fun_ext, ◌≢◌, ◌↔◌, ◌⊎◌, inl, inr, Bool, true, false, not, ◌&&◌, ◌||◌, Option, none, some, List,
  [], ◌∷◌, ◌++◌, map, append-nil, append_assoc, arith, ltb, leb, ◌==◌, if◌then◌else◌, ltb→lt,
  lt→ltb, leb→le, le→leb, lt→leb_false, ==_iff, tests, Bool-cases, Option-cases, length, get_elem?,
  take, drop, replicate, All, length-append, take-append_self, drop-append_self, take-append-drop,
  length-take, length-drop, length-replicate, Bytes, bytes, bytes_eq, bytes_eq_refl, eq_of_bytes_eq,
  IsByte, IsU32, IsU64, u32, put_u32, put_u64, get_u32, get_u64, slice, get_u32-put_u32,
  get_u64-put_u64,
}

-- `T` is a pointer type wherever the program uses it; `none` is its nil.
pub record Broadcaster (T : Type 0) : Type 0 where
  -- uint64
  pub generation : ℕ
  pub value : Option T
  pub closed : Bool

-- The listener's pointer to its broadcaster is an argument of its methods.
pub record Listener : Type 0 where
  pub last_generation : ℕ

unfoldable pub new : {T : Type 0} → Broadcaster T
new = record { generation = 0; value = none; closed = false }

unfoldable pub new_listener : Listener
new_listener = record { last_generation = 0 }

module _ {T : Type 0} where
  -- Besides, `Broadcast` and `Close` wake every listener that waits.
  unfoldable pub broadcast : Broadcaster T → Option T → Broadcaster T
  broadcast b v = record b { generation = (b.generation + 1) % 2 ^ 64; value = v }

  unfoldable pub close : Broadcaster T → Broadcaster T
  close b = record b { closed = true }

-- What `Wait` comes to in one of its steps.
pub data Outcome (T : Type 0) : Type 0 where
  -- it waits for the condition
  waits : Outcome T
  -- (value, nil)
  received : Option T → Outcome T
  -- (nil, Closed)
  ended : Outcome T
  -- the panic on an inconsistent state
  crashed : Outcome T

module _ {T : Type 0} where
  -- The part of `Wait` behind the wait for the condition.
  unfoldable pub wait_rest : Broadcaster T → Listener → Outcome T × Listener
  wait_rest b l =
      if ltb l.last_generation b.generation
      then (received b.value, record { last_generation = b.generation })
      else if b.closed
      then (ended, l)
      else (crashed, l)

  unfoldable pub wait_start : Broadcaster T → Listener → Outcome T × Listener
  unfolding wait_rest
  wait_start b l =
      if b.closed
      then (ended, l)
      else if leb b.generation l.last_generation
      then (waits, l)
      else wait_rest b l
