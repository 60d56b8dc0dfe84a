-- ===== src/Builder/Selection/Best.antt =====
-- Which package `sysimg` of builder/cmd/download picks.
use droidmole.Base.{
  zero, suc, ◌≡◌, refl, sym, ap, subst, ◌∙◌, ℤ, pos, negsuc, int_ltb, ◌≤ℤ◌, ◌<ℤ◌, true, false, not,
  ◌&&◌, if◌then◌else◌, Bool-cases, inl, inr, ◌⊎◌, Option, none, some, List, [], ◌∷◌, ◌++◌,
  append-nil, append_assoc, All, All-append, arith,
}
use droidmole.Builder.Selection.{
  RemotePackage, SysimgFlags, is_wanted, Current, consider, consider_all, nothing, is_minus_one,
  pick,
}

abbrev or_else : RemotePackage → Option RemotePackage → RemotePackage
or_else q none = q
or_else q (some p) = p

module _ (fl : SysimgFlags) where
  -- The wanted packages have at most this major version, or less than it.
  abbrev AtMost : ℤ → RemotePackage → Type 0
  AtMost m p = is_wanted fl p ≡ true → p.major ≤ℤ m

  abbrev Below : ℤ → RemotePackage → Type 0
  Below m p = is_wanted fl p ≡ true → p.major <ℤ m

  -- What is known of the packages seen so far.
  record Seen (ps : List RemotePackage) (c : Current) : Type 0 where
    bound : All (AtMost c.major) ps
    least : negsuc 0 ≤ℤ c.major
    chosen :
        ((c.rpkg ≡ none) × (c.major ≡ negsuc 0) × All (Below c.major) ps)
        ⊎ ((before : List RemotePackage) × (p : RemotePackage) × (after : List RemotePackage) × (ps
              ≡ before ++ p ∷ after)
            × (c.rpkg ≡ some p)
            × (p.major ≡ c.major)
            × (is_wanted fl p ≡ true)
            × All (Below c.major) after)

  All-weaken : (m n : ℤ) (ps : List RemotePackage) → m ≤ℤ n → All (AtMost m) ps → All (AtMost n) ps
  All-weaken m n [] le h = tt
  All-weaken m n (p ∷ ps) le h = (λ w. omega (arith, h.0 w), All-weaken m n ps le h.1)

  -- A package that is not taken is below.
  passed_over :
      (p : RemotePackage) (m : ℤ) → is_wanted fl p && not (int_ltb p.major m) ≡ false → Below m p
  passed_over p m e w = ground arith

  Seen-take :
      (ps : List RemotePackage) (p : RemotePackage) (c : Current)
      → is_wanted fl p && not (int_ltb p.major c.major) ≡ true
      → Seen ps c
      → Seen (ps ++ p ∷ []) (record { major = p.major; rpkg = some p })
  Seen-take ps p c e s =
      let w : is_wanted fl p ≡ true = ground arith in
      let le : c.major ≤ℤ p.major = ground arith in
      record {
        bound =
            All-append (AtMost p.major) ps (p ∷ []) (All-weaken c.major p.major ps le s.bound)
              ((λ w. omega arith), tt);
        least = omega (arith, s.least);
        chosen = inr (ps, p, [], refl, refl, refl, w, tt);
      }

  Seen-skip :
      (ps : List RemotePackage) (p : RemotePackage) (c : Current)
      → is_wanted fl p && not (int_ltb p.major c.major) ≡ false
      → Seen ps c
      → Seen (ps ++ p ∷ []) c
  Seen-skip ps p c e s =
      let below = passed_over p c.major e in
      record {
        bound = All-append (AtMost c.major) ps (p ∷ []) s.bound ((λ w. omega (arith, below w)), tt);
        least = s.least;
        chosen = elim s.chosen [
          | inl (n, m, h) ↦ inl (n, m, All-append (Below c.major) ps (p ∷ []) h (below, tt))
          | inr (before, q, after, split, k, m, w, h) ↦ inr (
            before,
            q,
            after ++ p ∷ [],
            ap (λ l. l ++ p ∷ []) split ∙ append_assoc before (q ∷ after) (p ∷ []),
            k,
            m,
            w,
            All-append (Below c.major) after (p ∷ []) h (below, tt),
          )
        ];
      }

  Seen-consider :
      (ps : List RemotePackage) (p : RemotePackage) (c : Current)
      → Seen ps c
      → Seen (ps ++ p ∷ []) (consider fl p c)
  unfolding consider
  Seen-consider ps p c s = elim (Bool-cases (is_wanted fl p && not (int_ltb p.major c.major))) [
    | inl e ↦ rw e (Seen-take ps p c e s)
    | inr e ↦ rw e (Seen-skip ps p c e s)
  ]

  Seen-all :
      (qs ps : List RemotePackage) (c : Current)
      → Seen ps c
      → Seen (ps ++ qs) (consider_all fl qs c)
  unfolding consider_all
  Seen-all [] ps c s = rw append-nil s
  Seen-all (q ∷ qs) ps c s =
      rw (← append_assoc ps (q ∷ []) qs)
        (Seen-all qs (ps ++ q ∷ []) (consider fl q c) (Seen-consider ps q c s))

  Seen-nothing : Seen [] nothing
  Seen-nothing = record { bound = tt; least = omega arith; chosen = inl (refl, refl, tt) }

  abbrev pub Picked : List RemotePackage → Option RemotePackage → Type 0
  Picked ps none = All (AtMost (negsuc 0)) ps
  Picked ps (some p) =
      (before : List RemotePackage) × (after : List RemotePackage) × (ps ≡ before ++ p ∷ after)
      × (is_wanted fl p ≡ true)
      × (pos 0 ≤ℤ p.major)
      × All (AtMost p.major) ps
      × All (Below p.major) after

  Picked-some :
      (ps : List RemotePackage) (p : RemotePackage) (m : ℤ)
      → pos 0 ≤ℤ m
      → Seen ps (record { major = m; rpkg = some p })
      → Picked ps (some p)
  Picked-some ps p m le s = elim s.chosen [
    | inl (n, e, h) ↦ absurd (cc n)
    | inr (before, q, after, split, k, e, w, h) ↦
        let same : q ≡ p = ap (λ o. or_else q o) (sym k) in
        subst (λ r. Picked ps (some r)) same
          (
            before,
            after,
            split,
            w,
            subst (λ n. pos 0 ≤ℤ n) (sym e) le,
            subst (λ n. All (AtMost n) ps) (sym e) s.bound,
            subst (λ n. All (Below n) after) (sym e) h,
          )
  ]

  Picked-current :
      (ps : List RemotePackage) (m : ℤ) (o : Option RemotePackage)
      → Seen ps (record { major = m; rpkg = o })
      → Picked ps (if is_minus_one m then none else o)
  Picked-current ps (pos n) none s = elim s.chosen [
    | inl (e, m, h) ↦ absurd (cc m)
    | inr (before, q, after, split, k, e, w, h) ↦ absurd (cc k)
  ]
  Picked-current ps (pos n) (some p) s = Picked-some ps p (pos n) (omega arith) s
  Picked-current ps (negsuc zero) o s = s.bound
  Picked-current ps (negsuc (suc n)) o s = absurd (omega (arith, s.least))

  -- Of the packages of the channel, the ABI and the API level that were asked for, the one is picked
  -- with the largest major version, and of several with it the last: none before it is larger, and all
  -- behind it are smaller. Its version is not negative. Where none is picked, all versions of those
  -- packages are negative, as it is where there are none.
  pub pick-Picked : (ps : List RemotePackage) → Picked ps (pick fl ps)
  unfolding pick
  pick-Picked ps =
      let c = consider_all fl ps nothing in
      Picked-current ps c.major c.rpkg (Seen-all ps [] nothing Seen-nothing)
