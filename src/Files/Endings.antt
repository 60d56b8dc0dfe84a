-- ===== src/Files/Endings.antt =====
-- The transfers of agent/server/sync/sync.go end, and leave no connection open, however the device
-- and the client behave.
use droidmole.Base.{
  ℕ, zero, suc, ◌<◌, ◌≡◌, refl, sym, ap, ◌∙◌, ◌≢◌, ◌⊎◌, inl, inr, true, Option, none, some, length,
  Bytes, arith,
}
use droidmole.Go.{Error, Result, ok, err, panic, Exec, bind-ne-none}
use droidmole.Net.{Conn}
use droidmole.Net.Laws.{closed-close}
use droidmole.Adb.Dial.{Dial, refused, connected}
use droidmole.Adb.Raw.{shut}
use droidmole.Adb.Sync
use droidmole.Adb.Sync.Closing.{incoming-recv, transfers_close}
use droidmole.Protocol.{PullFileResponse, PushFileRequest, no_message, start, chunk, end}
use droidmole.Grpc.{Stream, receive, send}
use droidmole.Files.{
  Link, on_conn, on_peer, with_stream, piece, last_piece, pull_step, pull_loop, pull_all, pull_file,
  push_step, push_loop, push_all, push_from, push_first, push_file,
}

module _ {Req : Type 0} where
  pull_loop-ne-none :
      (fuel : ℕ) (l : Link Req PullFileResponse)
      → length l.conn.incoming < fuel
      → (pull_loop fuel l).0 ≢ ok none
  unfolding pull_loop
  pull_loop-ne-none zero l h = absurd (omega arith)
  pull_loop-ne-none (suc fuel) l h = bind-ne-none (on_conn Sync.recv) _ l λ content t e.
      next content t (pull_loop-ne-none fuel) λ blob k. omega (
        arith,
        incoming-recv l.conn t.conn blob
            ((λ i. ((e i).0, (e i).1.conn)) ∙ ap (λ x. (ok x, t.conn)) k),
      )
    where
      next :
          (content : Option Bytes) (t : Link Req PullFileResponse)
          → ((u : Link Req PullFileResponse)
              → length u.conn.incoming < fuel
              → (pull_loop fuel u).0 ≢ ok none)
          → ((blob : Bytes) → content ≡ some blob → length t.conn.incoming < fuel)
          → (pull_step content (pull_loop fuel) t).0 ≢ ok none
      next none t again small =
          unfold pull_step in bind-ne-none (on_peer (send last_piece)) _ t λ _ u e. λ p. cc
      next (some blob) t again small =
          unfold pull_step in
          bind-ne-none (on_peer (send (piece blob))) _ t
            λ _ u e. again u (rw (← ap (λ r. r.1.conn) e) (small blob refl))

  with_stream-ne-none :
      {Out : Type 0} (r : Result (Unit {0}) × Option Conn)
      (m : Exec (Link Req Out) (Option (Unit {0}))) (p : Stream Req Out)
      → ((l : Link Req Out) → (m l).0 ≢ ok none)
      → (with_stream r m p).0 ≢ ok none
  unfolding with_stream
  with_stream-ne-none (ok t, some c) m p h = h (record { conn = c; peer = p })
  with_stream-ne-none (ok t, none) m p h = λ e. cc
  with_stream-ne-none (err e, left) m p h = λ q. cc
  with_stream-ne-none (panic, left) m p h = λ e. cc

module _ {Resp : Type 0} where
  incoming-receive :
      (p q : Stream PushFileRequest Resp) (m : PushFileRequest)
      → receive p ≡ (ok m, q)
      → suc (length q.incoming) ≡ length p.incoming
  unfolding receive
  incoming-receive p q m e = ground arith

  push_loop-ne-none :
      (fuel : ℕ) (l : Link PushFileRequest Resp)
      → length l.peer.incoming < fuel
      → (push_loop fuel l).0 ≢ ok none
  unfolding push_loop
  push_loop-ne-none zero l h = absurd (omega arith)
  push_loop-ne-none (suc fuel) l h = bind-ne-none (on_peer receive) _ l λ m t e.
      next m t (push_loop-ne-none fuel)
        (omega (arith, incoming-receive l.peer t.peer m λ i. ((e i).0, (e i).1.peer)))
    where
      next :
          (m : PushFileRequest) (t : Link PushFileRequest Resp)
          → ((u : Link PushFileRequest Resp)
              → length u.peer.incoming < fuel
              → (push_loop fuel u).0 ≢ ok none)
          → length t.peer.incoming < fuel
          → (push_step m (push_loop fuel) t).0 ≢ ok none
      next (chunk blob) t again small =
          unfold push_step in
          bind-ne-none (on_conn (Sync.send blob)) _ t
            λ _ u e. again u (rw (← ap (λ r. r.1.peer) e) small)
      next (end mtime) t again small =
          unfold push_step in bind-ne-none (on_conn (Sync.done mtime)) _ t λ _ u e. λ p. cc
      next no_message t again small = unfold push_step in λ p. cc
      next (start path mode) t again small = unfold push_step in λ p. cc

-- However the device and the client behave, neither transfer runs out of fuel.
pub transfers_end :
    {Req Resp : Type 0} (path : Bytes) (dial : Dial) (p : Stream Req PullFileResponse)
    (q : Stream PushFileRequest Resp)
    → ((pull_file path dial p).0 ≢ ok none) × ((push_file dial q).0 ≢ ok none)
unfolding push_file
transfers_end {Req} {Resp} path dial p q = (pulls, pushes (receive q).0 (receive q).1)
  where
    pulls : (pull_file path dial p).0 ≢ ok none
    pulls =
        unfold pull_file pull_all in
        with_stream-ne-none (Sync.pull_file path dial) pull_all p
          λ l. pull_loop-ne-none (suc (length l.conn.incoming)) l (omega arith)

    pushes :
        (r : Result PushFileRequest) (q : Stream PushFileRequest Resp)
        → (push_first dial r q).0 ≢ ok none
    pushes (ok (start path mode)) q =
        unfold push_first push_from push_all in
        with_stream-ne-none (Sync.push_file path mode dial) push_all q
          λ l. push_loop-ne-none (suc (length l.peer.incoming)) l (omega arith)
    pushes (ok no_message) q = unfold push_first push_from in λ e. cc
    pushes (ok (chunk blob)) q = unfold push_first push_from in λ e. cc
    pushes (ok (end mtime)) q = unfold push_first push_from in λ e. cc
    pushes (err e) q = unfold push_first in λ e. cc
    pushes panic q = unfold push_first in λ e. cc

-- The connection that is left, if one is, is closed, or the result is a panic.
abbrev pub LeavesClosed : {A B : Type 0} → Result A × Option Conn × B → Type 0
LeavesClosed (r, left, b) = (d : Conn) → left ≡ some d → (r ≡ panic) ⊎ (d.closed ≡ true)

closed_as : (c d : Conn) → some c ≡ some d → c.closed ≡ true → d.closed ≡ true
closed_as c d e h = ground arith

with_stream-LeavesClosed :
    {Req Out : Type 0} (r : Result (Unit {0})) (left : Option Conn)
    (m : Exec (Link Req Out) (Option (Unit {0}))) (p : Stream Req Out)
    → ((e : Error) → r ≡ err e → (d : Conn) → left ≡ some d → d.closed ≡ true)
    → LeavesClosed (with_stream (r, left) m p)
unfolding with_stream
with_stream-LeavesClosed (ok t) (some c) m p h d e =
    let l = (m (record { conn = c; peer = p })).1 in
    inr (closed_as (shut l.conn) d e (closed-close l.conn))
with_stream-LeavesClosed (ok t) none m p h d e = inl refl
with_stream-LeavesClosed (err x) left m p h d e = inr (h x refl d e)
with_stream-LeavesClosed panic left m p h d e = inl refl

-- A transfer leaves no open connection to adb: whatever the device and the client do, the connection
-- that it dialled is closed when it returns, with success or with an error.
pub transfers_leave_closed :
    {Req Resp : Type 0} (path : Bytes) (dial : Dial) (p : Stream Req PullFileResponse)
    (q : Stream PushFileRequest Resp)
    → LeavesClosed (pull_file path dial p) × LeavesClosed (push_file dial q)
unfolding push_file
transfers_leave_closed {Req} {Resp} path dial p q = (pulls, pushes (receive q).0 (receive q).1)
  where
    opened :
        (path : Bytes) (mode : ℕ) (dial : Dial) (e : Error) (d : Conn)
        → ((Sync.pull_file path dial).0 ≡ err e
            → (Sync.pull_file path dial).1 ≡ some d
            → d.closed ≡ true)
          × ((Sync.push_file path mode dial).0 ≡ err e
              → (Sync.push_file path mode dial).1 ≡ some d
              → d.closed ≡ true)
    opened path mode (refused x) e d =
        unfold Sync.pull_file Sync.push_file in ((λ h k. cc), (λ h k. cc))
    opened path mode (connected c) e d = (
      λ h k. let (d', k', s) = (transfers_close path mode c e).0 h in closed_as d' d (sym k' ∙ k) s,
      λ h k. let (d', k', s) = (transfers_close path mode c e).1 h in closed_as d' d (sym k' ∙ k) s,
    )

    pulls : LeavesClosed (pull_file path dial p)
    pulls =
        unfold pull_file in
        with_stream-LeavesClosed (Sync.pull_file path dial).0 (Sync.pull_file path dial).1 pull_all
          p λ e h d k. (opened path 0 dial e d).0 h k

    pushes :
        (r : Result PushFileRequest) (q : Stream PushFileRequest Resp)
        → LeavesClosed (push_first dial r q)
    pushes (ok (start path' mode)) q =
        unfold push_first push_from in
        with_stream-LeavesClosed (Sync.push_file path' mode dial).0
          (Sync.push_file path' mode dial).1 push_all q
          λ e h d k. (opened path' mode dial e d).1 h k
    pushes (ok no_message) q = unfold push_first push_from in λ d e. cc
    pushes (ok (chunk blob)) q = unfold push_first push_from in λ d e. cc
    pushes (ok (end mtime)) q = unfold push_first push_from in λ d e. cc
    pushes (err e) q = unfold push_first in λ d e. cc
    pushes panic q = unfold push_first in λ d e. cc
