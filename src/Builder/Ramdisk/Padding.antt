-- ===== src/Builder/Ramdisk/Padding.antt =====
-- The blocks of the ramdisk that builder/cmd/patchramdisk.go puts together.
use droidmole.Base.{
  ℕ, ◌-◌, ◌%◌, ◌≡◌, refl, sym, ap, ◌∙◌, Bool, true, false, if◌then◌else◌, List, [], ◌∷◌, ◌++◌,
  append-nil, append_assoc, length, length-append, length-replicate, replicate, Bytes, arith,
}
use droidmole.Go.{Result, ok, err, panic}
use droidmole.Builder.Ramdisk.{is_all_zero, strip, padded, then_do, process_segments}

-- The new segments: those before the first that is all zero, without what stands before their magic
-- number. The first failure is the failure of all.
abbrev pub cons_ok : Bytes → Result (List Bytes) → Result (List Bytes)
cons_ok b r = then_do r λ bs. ok (b ∷ bs)

abbrev pub new_segments : (Bytes → Result Bytes) → List Bytes → Result (List Bytes)
new_segments f [] = ok []
new_segments f (s ∷ ss) =
    if is_all_zero s
    then ok []
    else then_do (then_do (strip s) f) λ b. cons_ok b (new_segments f ss)

-- Each is filled up by itself.
abbrev pub blocks : List Bytes → Bytes
blocks [] = []
blocks (b ∷ bs) = padded b ++ blocks bs

length-padded : (b : Bytes) → length (padded b) % 256 ≡ 0
unfolding padded
length-padded b = omega (
  arith,
  length-append b (replicate (256 - length b % 256) 0),
  length-replicate {A = ℕ} (256 - length b % 256) 0,
)

-- Behind whole blocks, the padding of all is the padding of the last.
padded-append : (out b : Bytes) → length out % 256 ≡ 0 → padded (out ++ b) ≡ out ++ padded b
unfolding padded
padded-append out b h =
    let e : 256 - length (out ++ b) % 256 ≡ 256 - length b % 256 =
      omega (arith, length-append out b) in
    ap (λ n. out ++ b ++ replicate n 0) e ∙ append_assoc out b (replicate (256 - length b % 256) 0)

gather :
    (r : Result (List Bytes)) (out b : Bytes)
    → then_do r (λ bs. ok (out ++ padded b ++ blocks bs))
      ≡ then_do (cons_ok b r) (λ bs. ok (out ++ blocks bs))
gather (ok bs) out b = ap ok (append_assoc out (padded b) (blocks bs))
gather (err e) out b = refl
gather panic out b = refl

process_segments-append :
    (f : Bytes → Result Bytes) (ss : List Bytes) (out : Bytes)
    → length out % 256 ≡ 0
    → process_segments f ss out ≡ then_do (new_segments f ss) (λ bs. ok (out ++ blocks bs))
unfolding process_segments
process_segments-append f [] out h = ap ok (sym (append-nil out))
process_segments-append f (s ∷ ss) out h = go (is_all_zero s) (then_do (strip s) f) λ b.
    ap (process_segments f ss) (padded-append out b h)
    ∙ process_segments-append f ss (out ++ padded b)
        (omega (arith, length-append out (padded b), length-padded b))
    ∙ gather (new_segments f ss) out b
  where
    go :
        (z : Bool) (r : Result Bytes)
        → ((b : Bytes)
            → process_segments f ss (padded (out ++ b))
              ≡ then_do (cons_ok b (new_segments f ss)) (λ bs. ok (out ++ blocks bs)))
        → (if z then ok out else then_do r λ b. process_segments f ss (padded (out ++ b)))
          ≡ then_do
              (if z then ok [] else then_do r λ b. cons_ok b (new_segments f ss))
              (λ bs. ok (out ++ blocks bs))
    go true r ih = ap ok (sym (append-nil out))
    go false (ok b) ih = ih b
    go false (err e) ih = refl
    go false panic ih = refl

length-blocks : (bs : List Bytes) → length (blocks bs) % 256 ≡ 0
length-blocks [] = refl
length-blocks (b ∷ bs) =
    omega (arith, length-append (padded b) (blocks bs), length-padded b, length-blocks bs)

-- Whatever the processing of a segment gives: the ramdisk that is put together is that of the new
-- segments, up to the first that is all zero, each filled up with zeros to whole blocks of 256 bytes,
-- although the code counts the zeros from the start of the ramdisk. So every segment begins on a
-- whole block, and the length is one. The first failure, and a segment without a magic number, is the
-- failure of all.
pub process_segments-blocks :
    (f : Bytes → Result Bytes) (ss : List Bytes)
    → (process_segments f ss [] ≡ then_do (new_segments f ss) (λ bs. ok (blocks bs)))
      × ((bs : List Bytes) → length (blocks bs) % 256 ≡ 0)
process_segments-blocks f ss = (process_segments-append f ss [] refl, length-blocks)
