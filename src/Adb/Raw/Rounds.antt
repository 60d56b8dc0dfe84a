-- ===== src/Adb/Raw/Rounds.antt =====
-- How ReadLine of agent/server/adb/raw.go comes to an end.
use droidmole.Base.{
  ℕ, zero, suc, ◌+◌, ◌-◌, ◌<◌, min, ◌≡◌, refl, true, false, Bool, false, Option, none, some,
  Option-cases, inl, inr, [], ◌∷◌, ◌++◌, length, length-drop, take, drop, Bytes, leb, arith,
  if◌then◌else◌,
}
use droidmole.Go.{Error, eof, net_closed, Result, ok, err, panic}
use droidmole.Net.{Conn}
use droidmole.Net.Laws.{arriving, closed-close}
use droidmole.Adb.Raw.Line.{scan, read_line, finish, grow, refill, line_in, max_token, on_line}

-- A line, or the end or an error with the connection closed; no other outcome.
abbrev pub Stopped : Result (Option (Option Bytes)) × Conn → Type 0
Stopped (ok none, c) = ⊥
Stopped (ok (some none), c) = c.closed ≡ true
Stopped (ok (some (some l)), c) = Unit {0}
Stopped (err e, c) = c.closed ≡ true
Stopped (panic, c) = ⊥

finish-Stopped : (e : Error) (buf : Bytes) (conn : Conn) → Stopped (finish e buf conn)
unfolding finish
finish-Stopped eof (c ∷ s) conn = tt
finish-Stopped e (c ∷ s) conn = tt
finish-Stopped eof [] conn = closed-close conn
finish-Stopped e [] conn = closed-close conn

Stopped-if :
    (b : Bool) (x y : Result (Option (Option Bytes)) × Conn)
    → (b ≡ true → Stopped x)
    → (b ≡ false → Stopped y)
    → Stopped (if b then x else y)
Stopped-if true x y p q = p refl
Stopped-if false x y p q = q refl

module _ (sizes : ℕ → ℕ) where
  refill-Stopped :
      (fuel : ℕ) (buf left : Bytes) (conn : Conn)
      → length buf < 65536
      → length left + 1 < suc fuel
      → ((more left' : Bytes)
          → length left' + 1 < fuel
          → Stopped (scan sizes fuel more (arriving left' conn)))
      → Stopped (refill (sizes fuel) buf (scan sizes fuel) left (arriving left conn))
  unfolding refill max_token
  refill-Stopped fuel buf [] conn small h ih = finish-Stopped conn.ending buf (arriving [] conn)
  refill-Stopped fuel buf (b ∷ left) conn small h ih =
      let n = min (suc (sizes fuel)) (65536 - length buf) in
      ih (buf ++ take n (b ∷ left)) (drop n (b ∷ left)) (omega (arith, length-drop n (b ∷ left)))

  grow-Stopped :
      (fuel : ℕ) (buf : Bytes) (conn : Conn)
      → (length buf < 65536
          → Stopped (refill (sizes fuel) buf (scan sizes fuel) conn.incoming conn))
      → Stopped (grow (sizes fuel) buf (scan sizes fuel) conn)
  unfolding grow max_token
  grow-Stopped fuel buf conn more =
      Stopped-if (leb 65536 (length buf)) _ _ (λ _. closed-close conn)
        λ e.
          Stopped-if conn.closed _ _ (λ _. finish-Stopped net_closed buf conn)
            λ _. more (ground arith)

  scan-Stopped :
      (fuel : ℕ) (buf left : Bytes) (conn : Conn)
      → length left + 1 < fuel
      → Stopped (scan sizes fuel buf (arriving left conn))
  unfolding scan on_line
  scan-Stopped zero buf left conn h = absurd (omega arith)
  scan-Stopped (suc fuel) buf left conn h = elim (Option-cases (line_in buf)) [
    | inl e ↦ rw (e) (
        grow-Stopped fuel buf (arriving left conn) λ small.
          refill-Stopped fuel buf left conn small h
            λ more left'. λ d. scan-Stopped fuel more left' conn d)
    | inr (l, e) ↦ rw (e) tt
  ]

  -- ReadLine returns, in whatever pieces the bytes arrive: with a line, or at the end or on an error with
  -- the connection closed; it does not panic.
  pub read_line-Stopped : (conn : Conn) → Stopped (read_line sizes conn)
  unfolding read_line
  read_line-Stopped conn =
      scan-Stopped (suc (suc (length conn.incoming))) [] conn.incoming conn (omega arith)

  pub Stopped-err :
      (conn : Conn) (e : Error)
      → (read_line sizes conn).0 ≡ err e
      → (read_line sizes conn).1.closed ≡ true
  Stopped-err conn e h =
      go (read_line sizes conn).0 (read_line sizes conn).1 (read_line-Stopped conn) h
    where
      go :
          (r : Result (Option (Option Bytes))) (d : Conn)
          → Stopped (r, d)
          → r ≡ err e
          → d.closed ≡ true
      go (ok l) d s h' = cc
      go (err x) d s h' = s
      go panic d s h' = cc
