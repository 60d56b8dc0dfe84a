-- ===== src/Emulator/Controller/Tests.antt =====
-- The theorem about agent/server/emulator/controller/controller.go at a concrete input.
use droidmole.Base.{
  ℕ, ◌*◌, ◌^◌, ◌<◌, ◌≡◌, refl, sym, ap, ◌∙◌, List, [], ◌∷◌, length, length-replicate, replicate,
  All, Bytes, arith, ℤ, pos, negsuc,
}
use droidmole.Go.{eof, Result, ok, err}
use droidmole.Emulator.Controller
use droidmole.Emulator.Controller.{
  Host, DisplayStream, stream_display, get_frame, process_display, mem_size, int64,
}
use droidmole.Emulator.Controller.Frames.{answered, Converts, process_display-Converts}

abbrev mmaps : ℤ → Result Bytes
mmaps (pos n) = ok (replicate n 0)
mmaps (negsuc n) = err eof

mmaps-size : (n : ℤ) (d : Bytes) → mmaps n ≡ ok d → n ≡ pos (length d)
mmaps-size (pos n) d e = ap pos (sym (length-replicate {A = ℕ} n 0) ∙ ap length (cc e))
mmaps-size (negsuc n) d e = absurd (cc e)

abbrev host : Host
host = record { asked = []; answers = []; connections = 1; files = 0; maps = 0 }

abbrev stream : DisplayStream
stream = record { shm_data = replicate 12 0 }

streams : (stream_display (ok tt) (λ _. ok tt) mmaps (2 * 1) (2 * 1) host).0 ≡ ok stream
unfolding stream_display mem_size int64 Controller.stream_as Controller.subscribe Controller.ask
streams = refl

-- A whole frame, one of which a part is written, and the end.
abbrev rounds : List (Result (Unit {0}) × Bytes)
rounds = (ok tt, replicate 12 255) ∷ (ok tt, 1 ∷ 2 ∷ []) ∷ (err eof, []) ∷ []

small : 3 * (2 * 1 * (2 * 1)) < 2 ^ 24
small = omega arith

-- What is not written anew is of the frame before.
keeps_old_bytes :
    (get_frame (ok tt) (1 ∷ 2 ∷ []) (record { shm_data = 7 ∷ 8 ∷ 9 ∷ [] })).0 ≡ ok (1 ∷ 2 ∷ 9 ∷ [])
unfolding get_frame Controller.copy
keeps_old_bytes = refl

process_display-Converts_example :
    let frames = (process_display (ok tt) (λ _. ok tt) mmaps (2 * 1) (2 * 1) rounds host).0 in
    All (Converts 1 1 small) frames × (length frames ≡ answered rounds)
process_display-Converts_example =
    process_display-Converts 1 1 small (ok tt) (λ _. ok tt) mmaps rounds host stream mmaps-size
      streams
