-- ===== src/Shell/Requests.antt =====
-- What the requests to agent/server/shell/shell.go leave alone.
use droidmole.Base.{
  ℕ, ◌≡◌, refl, sym, ◌∙◌, arith, Bool, true, false, if◌then◌else◌, [], ◌∷◌, length, Bytes, bytes,
  put_u32, u32, ltb,
}
use droidmole.Go.{
  Error, status, invalid_argument, Result, ok, err, panic, Exec, pure, fail, on_err, on_err_with,
  continue, ◌>>=◌, ◌>>◌,
}
use droidmole.Net.{Conn, write, close}
use droidmole.Net.Laws.{closed-close}
use droidmole.Adb.Raw
use droidmole.Adb.Raw.{shut}
use droidmole.Shell.{
  ShellRequest, start, stdin, resizes, no_message, window_size, Shell, write_blob, handle_request,
}

-- An action on the connection that changes none of what is still to come, unless it closes it.
abbrev pub Quiet : {A : Type 0} → Exec Conn A → Type 0
Quiet m = (c : Conn) → (m c).1.closed ≡ false → (c.closed ≡ false) × ((m c).1.incoming ≡ c.incoming)

pub Quiet-write_raw : (p : Bytes) → Quiet (Raw.write_raw p)
unfolding Raw.write_raw write close
Quiet-write_raw p c h = ground arith

pub Quiet-on_err : {A : Type 0} (m : Exec Conn A) → Quiet m → Quiet (on_err m shut)
Quiet-on_err {A} m q c h = go (m c).0 (m c).1 (q c) h
  where
    go :
        (r : Result A) (d : Conn)
        → (d.closed ≡ false → (c.closed ≡ false) × (d.incoming ≡ c.incoming))
        → (on_err_with r shut d).1.closed ≡ false
        → (c.closed ≡ false) × ((on_err_with r shut d).1.incoming ≡ c.incoming)
    go (ok a) d k h = k h
    go (err e) d k h = absurd (cc (sym (closed-close d) ∙ h))
    go panic d k h = k h

pub Quiet-bind :
    {A B : Type 0} (m : Exec Conn A) (f : A → Exec Conn B)
    → Quiet m
    → ((a : A) → Quiet (f a))
    → Quiet (m >>= f)
Quiet-bind {A} {B} m f qm qf c h = go (m c).0 (m c).1 (qm c) h
  where
    go :
        (r : Result A) (d : Conn)
        → (d.closed ≡ false → (c.closed ≡ false) × (d.incoming ≡ c.incoming))
        → (continue r f d).1.closed ≡ false
        → (c.closed ≡ false) × ((continue r f d).1.incoming ≡ c.incoming)
    go (ok a) d k h = let (o, e) = qf a d h in ((k o).0, e ∙ (k o).1)
    go (err e) d k h = k h
    go panic d k h = k h

pub Quiet-write_shell_blob : (id : ℕ) (blob : Bytes) → Quiet (Raw.write_shell_blob id blob)
unfolding Raw.write_shell_blob
Quiet-write_shell_blob id blob =
    Quiet-bind (on_err (Raw.write_raw (id ∷ put_u32 (u32 (length blob)))) shut) _
      (Quiet-on_err _ (Quiet-write_raw (id ∷ put_u32 (u32 (length blob)))))
      λ _. Quiet-on_err _ (Quiet-write_raw blob)

-- A request changes nothing else of the shell.
abbrev pub Minds : Exec Shell (Unit {0}) → Type 0
Minds m =
    (s : Shell)
    → let t = (m s).1 in
      (t.peer ≡ s.peer)
      × (t.response ≡ s.response)
      × (t.verdict ≡ s.verdict)
      × (t.conn.closed ≡ false → (s.conn.closed ≡ false) × (t.conn.incoming ≡ s.conn.incoming))

pub Minds-bind : (m n : Exec Shell (Unit {0})) → Minds m → Minds n → Minds (m >> n)
Minds-bind m n hm hn s = go (m s).0 (m s).1 (hm s)
  where
    go :
        (r : Result (Unit {0})) (u : Shell)
        → (u.peer ≡ s.peer)
          × (u.response ≡ s.response)
          × (u.verdict ≡ s.verdict)
          × (u.conn.closed ≡ false → (s.conn.closed ≡ false) × (u.conn.incoming ≡ s.conn.incoming))
        → let t = (continue r (λ _. n) u).1 in
          (t.peer ≡ s.peer)
          × (t.response ≡ s.response)
          × (t.verdict ≡ s.verdict)
          × (t.conn.closed ≡ false → (s.conn.closed ≡ false) × (t.conn.incoming ≡ s.conn.incoming))
    go (ok t) u k =
        let q = hn u in
        (q.0 ∙ k.0, q.1 ∙ k.1, q.2 ∙ k.2, λ h. let (o, e) = q.3 h in ((k.3 o).0, e ∙ (k.3 o).1))
    go (err e) u k = k
    go panic u k = k

pub Minds-pure : Minds (pure tt)
Minds-pure s = (refl, refl, refl, λ h. (h, refl))

pub Minds-fail : (e : Error) → Minds (fail e)
Minds-fail e s = (refl, refl, refl, λ h. (h, refl))

Minds-write_blob : (id : ℕ) (blob : Bytes) → Minds (write_blob id blob)
unfolding write_blob
Minds-write_blob id blob s = (refl, refl, refl, Quiet-write_shell_blob id blob s.conn)

pub Minds-if :
    (b : Bool) (m n : Exec Shell (Unit {0}))
    → Minds m
    → Minds n
    → Minds (λ s. (if b then m else n) s)
Minds-if true m n hm hn = hm
Minds-if false m n hm hn = hn

pub Minds-handle_request : (m : ShellRequest) → Minds (handle_request m)
unfolding handle_request
Minds-handle_request no_message = Minds-fail (status invalid_argument (bytes "unknown request"))
Minds-handle_request (start term type command) =
    Minds-fail (status invalid_argument (bytes "unknown request"))
Minds-handle_request (stdin content ends) =
    Minds-bind _ _
      (Minds-if (ltb 0 (length content)) (write_blob 0 content) (pure tt)
        (Minds-write_blob 0 content) Minds-pure)
      (Minds-if ends (write_blob 4 []) (pure tt) (Minds-write_blob 4 []) Minds-pure)
Minds-handle_request (resizes rows cols width height) =
    Minds-write_blob 5 (window_size rows cols width height)
