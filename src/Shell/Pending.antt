-- ===== src/Shell/Pending.antt =====
-- The device's packets before the loop of agent/server/shell/shell.go has taken them.
use droidmole.Base.{
  ℕ, ◌≡◌, refl, sym, ◌∙◌, subst, arith, ◌==◌, Bool-cases, true, false, Option, none, some, ◌⊎◌, inl,
  inr, List, [], ◌∷◌, ◌++◌, length, All, Bytes, IsU32,
}
use droidmole.Go.{Error, net_closed, Result, ok, err, panic}
use droidmole.Net.{Conn, read_full}
use droidmole.Adb.Raw
use droidmole.Adb.Raw.{shut}
use droidmole.Adb.Raw.Framing.{shell_header, read_shell_blob-framed}
use droidmole.Grpc
use droidmole.Grpc.{Stream}
use droidmole.Shell.{ShellRequest, ShellResponse, output}

-- A packet of output, by its id (1, or 2 for the error channel) and its data.
abbrev pub IsOutput : ℕ × Bytes → Type 0
IsOutput (id, content) = ((id ≡ 1) ⊎ (id ≡ 2)) × IsU32 (length content)

abbrev pub wires : List (ℕ × Bytes) → Bytes
wires [] = []
wires ((id, content) ∷ ps) = shell_header id content ++ content ++ wires ps

abbrev pub shown : ℕ × Bytes → ShellResponse
shown (id, content) = output (id == 2) content

-- What is still to come: on the connection as long as it is open, and before that in the hands of the
-- goroutine.
abbrev pub Comes : List (ℕ × Bytes) → Conn → Type 0
Comes rest c = c.closed ≡ false → c.incoming ≡ wires rest

abbrev pub Pending : Option (Result (ℕ × Bytes)) → List (ℕ × Bytes) → Conn → Type 0
Pending none rest c = Comes rest c
Pending (some (ok p)) rest c = (later : List (ℕ × Bytes)) × (rest ≡ p ∷ later) × Comes later c
Pending (some _) rest c = Unit

read_closed : (c : Conn) → c.closed ≡ true → (e : Error) × ((Raw.read_shell_blob c).0 ≡ err e)
unfolding Raw.read_shell_blob read_full
read_closed c h = (net_closed, ground arith)

read_nothing :
    (c : Conn)
    → c.closed ≡ false
    → c.incoming ≡ []
    → (e : Error) × ((Raw.read_shell_blob c).0 ≡ err e)
unfolding Raw.read_shell_blob read_full
read_nothing c h n = (c.ending, ground arith)

pub Pending-err :
    (r : Result (ℕ × Bytes)) (rest : List (ℕ × Bytes)) (c : Conn)
    → (e : Error) × (r ≡ err e)
    → Pending (some r) rest c
Pending-err (ok p) rest c (e, h) = absurd (cc h)
Pending-err (err x) rest c (e, h) = tt
Pending-err panic rest c (e, h) = tt

-- A read takes the next packet from what is still to come, or fails.
pub Pending-read :
    (rest : List (ℕ × Bytes)) (c : Conn)
    → All IsOutput rest
    → Comes rest c
    → Pending (some (Raw.read_shell_blob c).0) rest (Raw.read_shell_blob c).1
Pending-read rest c h k = elim (Bool-cases c.closed) [
  | inl over ↦ Pending-err _ rest _ (read_closed c over)
  | inr on ↦ open_read rest h on (k on)
]
  where
    open_read :
        (rest : List (ℕ × Bytes))
        → All IsOutput rest
        → c.closed ≡ false
        → c.incoming ≡ wires rest
        → Pending (some (Raw.read_shell_blob c).0) rest (Raw.read_shell_blob c).1
    open_read [] h on e = Pending-err _ [] _ (read_nothing c on e)
    open_read ((id, content) ∷ later) h on e =
        subst (λ z. Pending (some z.0) ((id, content) ∷ later) z.1)
          (sym (
            (λ i. Raw.read_shell_blob (record c { incoming = e i }))
            ∙ read_shell_blob-framed (wires later) c on id content h.0.1))
          (later, refl, λ o. refl)

-- A Send delivers the response, or delivers nothing and fails.
pub send_cases :
    (m : ShellResponse) (p : Stream ShellRequest ShellResponse)
    → (((Grpc.send m p).0 ≡ ok tt) × ((Grpc.send m p).1.outgoing ≡ p.outgoing ++ m ∷ []))
      ⊎ ((e : Error) × ((Grpc.send m p).0 ≡ err e) × ((Grpc.send m p).1.outgoing ≡ p.outgoing))
unfolding Grpc.send
send_cases m p = go p.sends
  where
    go :
        (l : List (Option Error))
        → ((Grpc.send m (record p { sends = l })).0 ≡ ok tt
            × ((Grpc.send m (record p { sends = l })).1.outgoing ≡ p.outgoing ++ m ∷ []))
          ⊎ ((e : Error) × ((Grpc.send m (record p { sends = l })).0 ≡ err e)
              × ((Grpc.send m (record p { sends = l })).1.outgoing ≡ p.outgoing))
    go [] = inl (refl, refl)
    go (none ∷ l) = inl (refl, refl)
    go (some e ∷ l) = inr (e, refl, refl)

pub Pending-as :
    (o : Option (Result (ℕ × Bytes))) (rest : List (ℕ × Bytes)) (c d : Conn)
    → (d.closed ≡ false → (c.closed ≡ false) × (d.incoming ≡ c.incoming))
    → Pending o rest c
    → Pending o rest d
Pending-as none rest c d q k = λ h. (q h).1 ∙ k (q h).0
Pending-as (some (ok p)) rest c d q (later, e, k) = (later, e, λ h. (q h).1 ∙ k (q h).0)
Pending-as (some (err x)) rest c d q k = tt
Pending-as (some panic) rest c d q k = tt
