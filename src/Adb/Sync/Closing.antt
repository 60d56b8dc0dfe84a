-- ===== src/Adb/Sync/Closing.antt =====
-- What the methods of agent/server/adb/sync.go leave of their connection, however it behaves.
use droidmole.Base.{
  ℕ, zero, suc, ◌+◌, ◌<◌, ◌≡◌, refl, ◌≢◌, ◌⊎◌, inl, inr, Bool, true, none, some, List, [], ◌∷◌,
  ◌++◌, arith, ◌==◌, length, Bytes, bytes, get_u32, slice,
}
use droidmole.Go.{
  Error, Result, ok, err, panic, Exec, on_err, deferred, continue, ◌>>=◌, ◌>>◌, bind-ne-none,
  if-ne-none, on_err_inv, bind_inv,
}
use droidmole.Net.{Conn, read_full}
use droidmole.Net.Laws.{closed-close}
use droidmole.Adb.Dial.{Dial, refused, connected}
use droidmole.Adb.Raw
use droidmole.Adb.Raw.{shut}
use droidmole.Adb.Client.{send_command, open_emulator}
use droidmole.Adb.Sync.{
  id_of, word_of, entry_of, recv, received, list_loop, list_entries, list_directory, stat_answer,
  stat_file, pull_file, push_file,
}
use droidmole.Adb.Sync.Packets.{
  id_dent_v2, id_done, file_stat_size, ListDirectoryEntry, list_packet, stat_packet, pull_packet,
  push_packet,
}
use droidmole.Net.Laws.{incoming-read_full}
use droidmole.Adb.Raw.Closing.{ErrorsClose, ErrorsClose-on_err, ErrorsClose-bind}

-- The action panics, or the connection is closed.
abbrev Closes : {A : Type 0} → Exec Conn A → Type 0
Closes m = (c : Conn) → ((m c).0 ≡ panic) ⊎ ((m c).1.closed ≡ true)

ErrorsClose-open_emulator : ErrorsClose open_emulator
unfolding open_emulator send_command
ErrorsClose-open_emulator = ErrorsClose-on_err (Raw.send_command (bytes "host:transport-local"))

Closes-open_emulator : {A : Type 0} (m : Exec Conn A) → Closes (open_emulator >> deferred m shut)
Closes-open_emulator {A} m c =
    go (open_emulator c).0 (open_emulator c).1 (ErrorsClose-open_emulator c)
  where
    go :
        (r : Result (Unit {0})) (d : Conn)
        → ((e : Error) → r ≡ err e → d.closed ≡ true)
        → ((continue r (λ _. deferred m shut) d).0 ≡ panic)
          ⊎ ((continue r (λ _. deferred m shut) d).1.closed ≡ true)
    go (ok t) d k = inr (closed-close (m d).1)
    go (err e) d k = inr (k e refl)
    go panic d k = inl refl

-- Whatever the server sends and whichever call fails, a connection that `list_directory` or
-- `stat_file` dialled is closed when it returns, with a result or an error.
pub queries_close :
    (path : Bytes) (follow_links : Bool) (c : Conn)
    → let (r, left) = list_directory path (connected c) in
      let (r', left') = stat_file path follow_links (connected c) in
      ((d : Conn) × (left ≡ some d) × ((r ≡ panic) ⊎ (d.closed ≡ true)))
      × ((d : Conn) × (left' ≡ some d) × ((r' ≡ panic) ⊎ (d.closed ≡ true)))
unfolding list_directory stat_file
queries_close path follow_links c = (
  (
    _,
    refl,
    Closes-open_emulator
        (do Raw.send_command (bytes "sync:"); Raw.write_raw (list_packet path); list_entries) c,
  ),
  (
    _,
    refl,
    Closes-open_emulator
        (do
          Raw.send_command (bytes "sync:")
          Raw.write_raw (stat_packet path follow_links)
          packet ← Raw.read_raw (file_stat_size + 8)
          stat_answer packet)
        c,
  ),
)

ErrorsClose-request :
    (p : Bytes)
    → ErrorsClose (do
      open_emulator
      on_err (Raw.send_command (bytes "sync:")) shut
      on_err (Raw.write_raw p) shut)
ErrorsClose-request p = ErrorsClose-bind open_emulator _ ErrorsClose-open_emulator λ _.
    ErrorsClose-bind (on_err (Raw.send_command (bytes "sync:")) shut) _
      (ErrorsClose-on_err (Raw.send_command (bytes "sync:")))
      λ _. ErrorsClose-on_err (Raw.write_raw p)

-- When `pull_file` or `push_file` returns an error, the connection that it dialled is closed.
pub transfers_close :
    (path : Bytes) (mode : ℕ) (c : Conn) (e : Error)
    → let (r, left) = pull_file path (connected c) in
      let (r', left') = push_file path mode (connected c) in
      (r ≡ err e → (d : Conn) × (left ≡ some d) × (d.closed ≡ true))
      × (r' ≡ err e → (d : Conn) × (left' ≡ some d) × (d.closed ≡ true))
unfolding pull_file push_file
transfers_close path mode c e = (
  λ h. (_, refl, ErrorsClose-request (pull_packet path) c e h),
  λ h. (_, refl, ErrorsClose-request (push_packet path mode) c e h),
)

pub incoming-read_raw :
    (n : ℕ) (c d : Conn) (xs : Bytes)
    → Raw.read_raw n c ≡ (ok xs, d)
    → length d.incoming + n ≡ length c.incoming
unfolding Raw.read_raw
incoming-read_raw n c d xs e = incoming-read_full n c d xs (on_err_inv (read_full n) shut c e)

-- Data that Recv returns was taken off the connection.
pub incoming-recv :
    (c d : Conn) (blob : Bytes)
    → recv c ≡ (ok (some blob), d)
    → length d.incoming < length c.incoming
unfolding recv
incoming-recv c d blob h =
    let (packet, c1, e1, h1) = bind_inv (Raw.read_raw 8) _ c h in
    let (data1, c2, e2, h2) = bind_inv (Raw.read_raw (word_of packet)) _ c1 h1 in
    omega (
      arith,
      incoming-read_raw 8 c c1 packet e1,
      incoming-read_raw (word_of packet) c1 c2 data1 e2,
      same (id_of packet) data1 c2 h2,
    )
  where
    same :
        (id : ℕ) (xs : Bytes) (c2 : Conn)
        → received id xs c2 ≡ (ok (some blob), d)
        → length d.incoming ≡ length c2.incoming
    same id xs c2 e = unfold received in ground arith

list_loop-ne-none :
    (fuel : ℕ) (acc : List ListDirectoryEntry) (c : Conn)
    → length c.incoming < fuel
    → (list_loop fuel acc c).0 ≢ ok none
unfolding list_loop
list_loop-ne-none zero acc c h = absurd (omega arith)
list_loop-ne-none (suc fuel) acc c h = bind-ne-none (Raw.read_raw 76) _ c λ packet d e.
    if-ne-none (id_of packet == id_done) _ _ d (λ p. cc)
      (if-ne-none (id_of packet == id_dent_v2) _ _ d
        (bind-ne-none (Raw.read_raw (get_u32 (slice 72 4 packet))) _ d λ name d' e'.
          list_loop-ne-none fuel (acc ++ entry_of packet name ∷ []) d' (
            omega (
              arith,
              incoming-read_raw 76 c d packet e,
              incoming-read_raw (get_u32 (slice 72 4 packet)) d d' name e',
            )))
        (λ p. cc))

-- However the connection behaves, the listing ends: its loop never runs out of fuel.
pub list_directory-ends : (path : Bytes) (dial : Dial) → (list_directory path dial).0 ≢ ok none
unfolding list_directory
list_directory-ends path (refused e) = λ p. cc
list_directory-ends path (connected c) = bind-ne-none open_emulator _ c λ _ d e.
    bind-ne-none (Raw.send_command (bytes "sync:")) _ d λ _ d' e'.
      bind-ne-none (Raw.write_raw (list_packet path)) _ d'
        λ _ d'' e''. list_loop-ne-none (suc (length d''.incoming)) [] d'' (omega arith)
