-- ===== src/Grpc.antt =====
-- The gRPC streams that the agent serves: google.golang.org/grpc behind the generated code of
-- agent/protocol. A stream is seen from one end: what the other end sends is part of the state,
-- and what becomes of each message that is sent to it.
use droidmole.Base.{◌≡◌, refl, Option, none, some, List, [], ◌∷◌, ◌++◌}
use droidmole.Go.{Error, ok, err, Exec}

pub record Stream (In Out : Type 0) : Type 0 where
  pub incoming : List In
  -- what Recv returns behind the incoming messages
  pub ending : Error
  pub outgoing : List Out
  -- what the next calls of Send return; all others return nil
  pub sends : List (Option Error)

module _ {In Out : Type 0} where
  receive_from : List In → Exec (Stream In Out) In
  receive_from [] p = (err p.ending, p)
  receive_from (r ∷ rs) p = (ok r, record p { incoming = rs })

  unfoldable pub receive : Exec (Stream In Out) In
  unfolding receive_from
  receive p = receive_from p.incoming p

  send_as : List (Option Error) → Out → Exec (Stream In Out) (Unit {0})
  send_as [] m p = (ok tt, record p { outgoing = p.outgoing ++ m ∷ [] })
  send_as (none ∷ s) m p = (ok tt, record p { outgoing = p.outgoing ++ m ∷ []; sends = s })
  send_as (some e ∷ s) m p = (err e, record p { sends = s })

  unfoldable pub send : Out → Exec (Stream In Out) (Unit {0})
  unfolding send_as
  send m p = send_as p.sends m p

  -- Every response is delivered.
  abbrev pub Delivers : Stream In Out → Type 0
  Delivers p = p.sends ≡ []

  pub send-Delivers :
      (m : Out) (p : Stream In Out)
      → Delivers p
      → send m p ≡ (ok tt, record p { outgoing = p.outgoing ++ m ∷ [] })
  unfolding send
  send-Delivers m p h = rw h

  pub receive-cons :
      (m : In) (ms : List In) (p : Stream In Out)
      → receive (record p { incoming = m ∷ ms }) ≡ (ok m, record p { incoming = ms })
  unfolding receive
  receive-cons m ms p = refl
