-- ===== src/Builder/Download/Safety.antt =====
-- What builder/repository/download.go leaves at the path.
use droidmole.Base.{
  ◌≤◌, ◌≡◌, refl, sym, ap, ◌∙◌, ◌≢◌, inl, inr, Bool, true, false, Bool-cases, Option, none, some,
  List, [], ◌∷◌, ◌++◌, length, All, Bytes, bytes_eq, bytes_eq_refl, eq_of_bytes_eq, arith,
}
use droidmole.Go.{Error, Result, ok, err, panic, ◌>>◌}
use droidmole.Builder.Download.{
  Disk, Piece, Calls, unless, copy, fetch, have, look, download_archive,
}

-- The file takes every piece whole.
abbrev pub Whole : Piece → Type 0
Whole (piece, n) = length piece ≤ n

copy-hashed :
    (ps : List Piece) (out hashed : Bytes)
    → All Whole ps
    → out ≡ hashed
    → (copy ps out hashed).0 ≡ (copy ps out hashed).1
unfolding copy
copy-hashed [] out hashed h e = e
copy-hashed ((piece, n) ∷ ps) out hashed h e =
    ground (arith, copy-hashed ps (out ++ piece) (hashed ++ piece) h.1 (ap (λ l. l ++ piece) e))

abbrev or_nil : Option Bytes → Bytes
or_nil none = []
or_nil (some s) = s

-- The response is written whole, and Close keeps what was written.
abbrev pub Careful : Calls → Type 0
Careful calls = All Whole calls.response × ((content : Bytes) → calls.closes content ≡ content)

-- The file at the path is there, and is right.
abbrev pub HasRight : (Bytes → Bytes) → Bytes → Disk → Type 0
HasRight sha1 hash d = (content : Bytes) × (d.target ≡ some content) × (sha1 content ≡ hash)

module _ (sha1 : Bytes → Bytes) (hash : Bytes) where
  -- A success leaves the right file, and anything else the one that was there.
  abbrev Verified : Type 0 → Option Bytes → Result (Unit {0}) × Disk → Type 0
  Verified care old (ok t, d) = care → HasRight sha1 hash d
  Verified care old (err e, d) = d.target ≡ old
  Verified care old (panic, d) = d.target ≡ old

  abbrev with_errors : Calls → Option Error → Option Error → Option Error → Calls
  with_errors calls ce ge re = record calls { create_error = ce; get_error = ge; rename_error = re }

  module _ (calls : Calls) where
    right_hash :
        Careful calls
        → bytes_eq (sha1 (copy calls.response [] []).1) hash ≡ true
        → sha1 (calls.closes (copy calls.response [] []).0) ≡ hash
    right_hash (whole, keeps) e =
        ap sha1 (keeps (copy calls.response [] []).0 ∙ copy-hashed calls.response [] [] whole refl)
        ∙ eq_of_bytes_eq (sha1 (copy calls.response [] []).1) hash e

    fetch-Verified :
        (ce ge re : Option Error) (d : Disk)
        → Verified (Careful calls) d.target (fetch sha1 (with_errors calls ce ge re) hash d)
    unfolding fetch
    fetch-Verified (some e) ge re d = refl
    fetch-Verified none (some e) re d = refl
    fetch-Verified none none (some e) d =
        elim (Bool-cases (bytes_eq (sha1 (copy calls.response [] []).1) hash)) [
          | inl h ↦ rw h refl
          | inr h ↦ rw h refl
        ]
    fetch-Verified none none none d =
        elim (Bool-cases (bytes_eq (sha1 (copy calls.response [] []).1) hash)) [
          | inl h ↦
              rw h (λ care. (calls.closes (copy calls.response [] []).0, refl, right_hash care h))
          | inr h ↦ rw h refl
        ]

  module _ (calls : Calls) where
    abbrev reading : Bool → Option Error → Calls
    reading o re = record calls { open_fails = o; read_error = re }

    have-Verified :
        (content : Bytes) (o : Bool) (re : Option Error) (d : Disk)
        → d.target ≡ some content
        → Verified (Careful calls) d.target (have sha1 (reading o re) hash content d)
    unfolding have
    have-Verified content true re d e = refl
    have-Verified content false (some x) d e = refl
    have-Verified content false none d e = elim (Bool-cases (bytes_eq (sha1 content) hash)) [
      | inl h ↦ rw h (λ care. (content, e, eq_of_bytes_eq (sha1 content) hash h))
      | inr h ↦ rw h (
          fetch-Verified (reading false none) calls.create_error calls.get_error calls.rename_error
            d)
    ]

    have-right :
        (content : Bytes) (o : Bool) (re : Option Error) (d : Disk)
        → sha1 content ≡ hash
        → (have sha1 (reading o re) hash content d).1 ≡ d
    unfolding have
    have-right content true re d h = refl
    have-right content false (some x) d h = refl
    have-right content false none d h =
        rw (ap (λ s. bytes_eq (sha1 content) s) (sym h) ∙ bytes_eq_refl (sha1 content)) refl

    look-Verified :
        (o : Option Bytes) (d : Disk)
        → d.target ≡ o
        → Verified (Careful calls) d.target (look sha1 calls hash o d)
    unfolding look
    look-Verified none d e =
        fetch-Verified calls calls.create_error calls.get_error calls.rename_error d
    look-Verified (some content) d e = have-Verified content calls.open_fails calls.read_error d e

    look-right :
        (o : Option Bytes) (d : Disk) (old : Bytes)
        → o ≡ some old
        → sha1 old ≡ hash
        → (look sha1 calls hash o d).1 ≡ d
    unfolding look
    look-right none d old e h = absurd (cc e)
    look-right (some content) d old e h =
        have-right content calls.open_fails calls.read_error d (rw (ap (λ x. or_nil x) e) h)

abbrev Claim : (Bytes → Bytes) → Bytes → Calls → Disk → Result (Unit {0}) × Disk → Type 0
Claim sha1 hash calls d (r, d') =
    (r ≢ ok tt → d'.target ≡ d.target)
    × ((old : Bytes) → d.target ≡ some old → sha1 old ≡ hash → d' ≡ d)
    × (r ≡ ok tt → Careful calls → HasRight sha1 hash d')

-- However the calls fail. Without success, what was at the path is still there. A file that was there
-- and is right stays, nothing is asked for, and nothing else changes. With success there is a file whose
-- hash is the right one, if the response is written whole and Close keeps what was written.
pub download_archive-verified :
    (sha1 : Bytes → Bytes) (calls : Calls) (hash : Bytes) (d : Disk)
    → let (r, d') = download_archive sha1 calls hash d in
      (r ≢ ok tt → d'.target ≡ d.target)
      × ((old : Bytes) → d.target ≡ some old → sha1 old ≡ hash → d' ≡ d)
      × (r ≡ ok tt → Careful calls → HasRight sha1 hash d')
unfolding download_archive
download_archive-verified sha1 calls hash d = go calls.stat_error
  where
    claim :
        (p : Result (Unit {0}) × Disk)
        → Verified sha1 hash (Careful calls) d.target p
        → ((old : Bytes) → d.target ≡ some old → sha1 old ≡ hash → p.1 ≡ d)
        → Claim sha1 hash calls d p
    claim (ok t, d') v right = (λ n. absurd (n refl), right, λ e. v)
    claim (err e, d') v right = (λ n. v, right, λ e. absurd (cc e))
    claim (panic, d') v right = (λ n. v, right, λ e. absurd (cc e))

    go :
        (e : Option Error) → Claim sha1 hash calls d ((unless e >> look sha1 calls hash d.target) d)
    go (some e) = (λ n. refl, λ old h r. refl, λ e. absurd (cc e))
    go none =
        claim (look sha1 calls hash d.target d) (look-Verified sha1 hash calls d.target d refl)
          (look-right sha1 hash calls d.target d)
