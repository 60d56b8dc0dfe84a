-- ===== src/Adb/Raw/Closing.antt =====
-- Which failures of agent/server/adb/raw.go close the connection.
use droidmole.Base.{
  ℕ, ◌≡◌, refl, Bool, true, false, ◌&&◌, Option, none, some, ◌∷◌, ◌++◌, ltb, ◌==◌, if◌then◌else◌,
  length, drop, Bytes, bytes, u32, put_u32, get_u32,
}
use droidmole.Go.{
  Error, text, syntax, Result, ok, err, panic, Exec, pure, fail, crash, on_err_with, on_err,
  continue, ◌>>=◌,
}
use droidmole.Net.{Conn, write, read_full}
use droidmole.Net.Laws.{closed-close}
use droidmole.Adb.Raw.{shut, first, write_raw, write_message, read_raw, read_status, read_sized}
use droidmole.Adb.Raw.{read_hex_prefixed_blob, read_shell_blob, write_shell_blob}
use droidmole.Adb.Raw.Line.{read_line}
use droidmole.Adb.Raw.Rounds.{Stopped-err}
use droidmole.Adb.Raw.Hex.{format_04x, parse_int}

-- When the action returns an error, the connection is closed.
abbrev pub ErrorsClose : {A : Type 0} → Exec Conn A → Type 0
ErrorsClose m = (c : Conn) (e : Error) → (m c).0 ≡ err e → (m c).1.closed ≡ true

module _ {A : Type 0} where
  pub ErrorsClose-on_err : (m : Exec Conn A) → ErrorsClose (on_err m shut)
  ErrorsClose-on_err m c e h = go (m c).0 (m c).1 h
    where
      go :
          (r : Result A) (d : Conn)
          → (on_err_with r shut d).0 ≡ err e
          → (on_err_with r shut d).1.closed ≡ true
      go (ok a) d h' = cc
      go (err x) d h' = closed-close d
      go panic d h' = cc

  pub ErrorsClose-pure : (a : A) → ErrorsClose {A = A} (pure a)
  ErrorsClose-pure a c e h = cc

  pub ErrorsClose-crash : ErrorsClose {A = A} crash
  ErrorsClose-crash c e h = cc

  pub ErrorsClose-if :
      (b : Bool) (m n : Exec Conn A)
      → ErrorsClose m
      → ErrorsClose n
      → ErrorsClose (if b then m else n)
  ErrorsClose-if true m n hm hn = hm
  ErrorsClose-if false m n hm hn = hn

  pub ErrorsClose-bind :
      {B : Type 0} (m : Exec Conn A) (f : A → Exec Conn B)
      → ErrorsClose m
      → ((a : A) → ErrorsClose (f a))
      → ErrorsClose (m >>= f)
  ErrorsClose-bind {B} m f hm hf c e h = go (m c).0 (m c).1 (hm c) h
    where
      go :
          (r : Result A) (d : Conn)
          → ((x : Error) → r ≡ err x → d.closed ≡ true)
          → (continue r f d).0 ≡ err e
          → (continue r f d).1.closed ≡ true
      go (ok a) d k h' = hf a d e h'
      go (err x) d k h' = k x refl
      go panic d k h' = cc

ErrorsClose-read_sized :
    (digits : Bytes) (o : Option (Bool × ℕ)) → ErrorsClose (read_sized digits o)
unfolding read_sized
ErrorsClose-read_sized digits none = ErrorsClose-on_err (fail (syntax digits))
ErrorsClose-read_sized digits (some (neg, size)) =
    ErrorsClose-if (neg && ltb 0 size) crash (on_err (read_full size) shut) ErrorsClose-crash
      (ErrorsClose-on_err (read_full size))

ErrorsClose-write_raw : (p : Bytes) → ErrorsClose (write_raw p)
unfolding write_raw
ErrorsClose-write_raw p =
    ErrorsClose-bind (on_err (write p) shut) _ (ErrorsClose-on_err (write p)) λ wrote.
      ErrorsClose-if (wrote == length p) (pure tt) _ (ErrorsClose-pure tt)
        (ErrorsClose-on_err (fail (text (bytes "failed to write full packet"))))

-- Every method of the raw connection but `send_command` that returns an error has closed the connection.
pub errors_close :
    (p : Bytes) (n id : ℕ) (sizes : ℕ → ℕ)
    → ErrorsClose (write_raw p)
      × ErrorsClose (write_message p)
      × ErrorsClose (read_raw n)
      × ErrorsClose read_status
      × ErrorsClose read_hex_prefixed_blob
      × ErrorsClose read_shell_blob
      × ErrorsClose (write_shell_blob id p)
      × ErrorsClose (read_line sizes)
unfolding write_raw write_message read_raw read_status read_hex_prefixed_blob read_shell_blob
    write_shell_blob
errors_close p n id sizes = (
  ErrorsClose-write_raw p,
  ErrorsClose-on_err (write_raw (format_04x (length p) ++ p)),
  ErrorsClose-on_err (read_full n),
  ErrorsClose-on_err (read_full 4),
  ErrorsClose-bind (on_err (read_full 4) shut) _ (ErrorsClose-on_err (read_full 4))
      λ size. ErrorsClose-read_sized size (parse_int size),
  ErrorsClose-bind (on_err (read_full 5) shut) _ (ErrorsClose-on_err (read_full 5)) λ header.
      ErrorsClose-bind (on_err (read_full (get_u32 (drop 1 header))) shut) _
        (ErrorsClose-on_err (read_full (get_u32 (drop 1 header))))
        λ blob. ErrorsClose-pure (first header, blob),
  ErrorsClose-bind (on_err (write_raw (id ∷ put_u32 (u32 (length p)))) shut) _
      (ErrorsClose-on_err (write_raw (id ∷ put_u32 (u32 (length p)))))
      λ _. ErrorsClose-on_err (write_raw p),
  Stopped-err sizes,
)
