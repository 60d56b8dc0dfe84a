-- ===== src/Client/Shell/Hears.antt =====
-- What Recv of agent/client/shell gives, and the device's output on its way there.
use droidmole.Base.{
  ℕ, zero, suc, ◌%◌, ◌^◌, ◌≡◌, refl, sym, ap, ◌∙◌, ◌==◌, true, false, Option, none, some, List, [],
  ◌∷◌, ◌++◌, map, append-nil, length, All, Bytes,
}
use droidmole.Go.{ok, Exec, pure, ◌>>=◌}
use droidmole.Net.{Conn}
use droidmole.Net.Laws.{arriving}
use droidmole.Grpc.{Stream, receive}
use droidmole.Shell.{ShellRequest, ShellResponse, output, exit, Turn, opened, run}
use droidmole.Shell.Pending.{IsOutput, wires, shown}
use droidmole.Shell.Output.{output_in_order}
use droidmole.Client.Shell.{Output, Shell, recv, exit_code_of}

-- Successive calls of Recv, with what they return.
unfoldable pub recv_times : ℕ → Exec Shell (List (Option Output))
recv_times zero = pure []
recv_times (suc n) = do got ← recv; more ← recv_times n; pure (got ∷ more)

-- A running shell to which these responses are still to come.
abbrev pub hearing :
    List (Option ShellResponse) → Stream (Option ShellResponse) ShellRequest → Shell
hearing ms s = record { client = record s { incoming = ms }; exited = false; exit_code = 0 }

-- The response and the client's view of one blob of output.
abbrev pub message : Output → Option ShellResponse
message o = some (output o.on_err o.content)

recv_times-outputs :
    (os : List Output) (later : List (Option ShellResponse))
    (s : Stream (Option ShellResponse) ShellRequest)
    → recv_times (length os) (hearing (map message os ++ later) s)
      ≡ (ok (map some os), hearing later s)
unfolding recv_times recv receive
recv_times-outputs [] later s = refl
recv_times-outputs (o ∷ os) later s = rw (recv_times-outputs os later s) refl

-- The shell once it has exited.
abbrev pub over :
    ℕ → List (Option ShellResponse) → Stream (Option ShellResponse) ShellRequest → Shell
over code ms s = record {
  client = record s { incoming = ms };
  exited = true;
  exit_code = code % 2 ^ 8;
}

-- A client whose shell sends some output and an exit code gets the blobs in order, one for each Recv,
-- on their channels, and then the end. From there on ExitCode gives the code modulo 256, and every
-- further Recv returns the end again, and takes nothing more from the stream.
pub recv-exit :
    (os : List Output) (code : ℕ) (later : List (Option ShellResponse))
    (s : Stream (Option ShellResponse) ShellRequest)
    → (recv_times (suc (length os)) (hearing (map message os ++ some (exit code) ∷ later) s)
        ≡ (ok (map some os ++ none ∷ []), over code later s))
      × (exit_code_of (over code later s) ≡ (true, code % 2 ^ 8))
      × (recv (over code later s) ≡ (ok none, over code later s))
unfolding recv_times recv receive exit_code_of
recv-exit [] code later s = (refl, refl, refl)
recv-exit (o ∷ os) code later s = (rw (recv-exit os code later s).0 refl, refl, refl)

-- A packet of the device, as the client sees it.
abbrev pub seen : ℕ × Bytes → Output
seen (id, content) = record { on_err = id == 2; content = content }

shown-seen : (ps : List (ℕ × Bytes)) → map (λ m. some m) (map shown ps) ≡ map message (map seen ps)
shown-seen [] = refl
shown-seen ((id, content) ∷ ps) = ap (λ l. some (output (id == 2) content) ∷ l) (shown-seen ps)

-- The device's output at the client: of a device that sends packets of output, shorter than 2 ^ 32
-- bytes, the first ones come out of the client's Recv, each as one result on its channel, in order,
-- none left out and none twice, when the client gets what the shell service has sent. That is so in
-- whatever order the goroutines and the loop of the service run, and whatever the client sends.
pub shell_output_arrives :
    (ts : List Turn) (ps : List (ℕ × Bytes)) (c : Conn) (p : Stream ShellRequest ShellResponse)
    (s : Stream (Option ShellResponse) ShellRequest)
    → All IsOutput ps
    → p.outgoing ≡ []
    → (taken : List (ℕ × Bytes)) × (rest : List (ℕ × Bytes)) × (ps ≡ taken ++ rest)
      × (recv_times
            (length (map seen taken))
            (hearing (map some (run ts (opened (arriving (wires ps) c) p)).peer.outgoing) s)
          ≡ (ok (map some (map seen taken)), hearing [] s))
shell_output_arrives ts ps c p s h empty =
    let (taken, rest, split, shows) = output_in_order ts ps c p h in
    (taken, rest, split, hears taken (shows ∙ ap (λ os. os ++ map shown taken) empty))
  where
    hears :
        {os : List ShellResponse} (taken : List (ℕ × Bytes))
        → os ≡ map shown taken
        → recv_times (length (map seen taken)) (hearing (map some os) s)
          ≡ (ok (map some (map seen taken)), hearing [] s)
    hears {os} taken e =
        ap (λ l. recv_times (length (map seen taken)) (hearing l s))
          (ap (map some) e ∙ shown-seen taken ∙ sym (append-nil (map message (map seen taken))))
        ∙ recv_times-outputs (map seen taken) [] s
