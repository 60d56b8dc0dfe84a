-- ===== src/Shell/Tests.antt =====
-- The theorems about agent/server/shell/shell.go at concrete inputs.
use droidmole.Base.{ℕ, ◌≡◌, refl, some, true, false, List, [], ◌∷◌, Bytes, bytes, format_d}
use droidmole.Go.{eof}
use droidmole.Net
use droidmole.Net.{Conn}
use droidmole.Net.Laws.{arriving}
use droidmole.Net.Samples.{line}
use droidmole.Adb.Raw
use droidmole.Grpc
use droidmole.Grpc.{Stream}
use droidmole.Shell.{
  handle_response, ShellRequest, ShellResponse, pty, output, shell_command, window_size, Turn,
  reads_response, takes_response, opened, step, run,
}
use droidmole.Shell.Pending.{wires}

abbrev silent : Stream ShellRequest ShellResponse
silent = record { incoming = []; ending = eof; outgoing = []; sends = [] }

-- Two packets, the second on the error channel.
abbrev packets : List (ℕ × Bytes)
packets = (1, bytes "hi") ∷ (2, bytes "no") ∷ []

builds_command :
    shell_command (some (bytes "xterm")) pty (some (bytes "ls"))
    ≡ some (bytes "shell,v2,TERM=xterm,pty:ls")
unfolding shell_command
builds_command = refl

prints_size : window_size 24 80 640 480 ≡ bytes "24x80,640x480"
unfolding window_size format_d
prints_size = refl

abbrev turns : List Turn
turns = reads_response ∷ takes_response ∷ reads_response ∷ takes_response ∷ []

shows_both :
    (run turns (opened (arriving (wires packets) line) silent)).peer.outgoing
    ≡ output false (bytes "hi") ∷ output true (bytes "no") ∷ []
unfolding run step opened Raw.read_shell_blob Net.read_full handle_response Grpc.send
shows_both = refl
