-- ===== src/Go.antt =====
-- What a Go function may do beside its value: return an error, panic, and change the state that its
-- receiver points to. The components are written in the monad `Exec` of this file.
mod Failure
pub use Failure.*
use droidmole.Base.{◌≡◌, ◌≢◌, refl, ap, ◌∙◌, Bool, true, false, if◌then◌else◌, Option, none}

-- The `(value, error)` of a Go function; `panic` unwinds it.
pub data Result {ℓ} (A : Type ℓ) : Type ℓ where
  ok : A → Result A
  err : Error → Result A
  panic : Result A

-- A method over the state `S`. What was changed before an error or a panic stays changed.
abbrev pub Exec {ℓ} : Type ℓ → Type ℓ → Type ℓ
Exec S A = S → Result A × S

-- A call whose error is not looked at.
abbrev pub heedless {ℓ} : {A : Type ℓ} → Result A → Result (Unit {ℓ})
heedless (ok a) = ok tt
heedless (err e) = ok tt
heedless panic = panic

module _ {ℓ} {S A : Type ℓ} where
  abbrev pub pure : A → Exec S A
  pure a s = (ok a, s)

  abbrev pub fail : Error → Exec S A
  fail e s = (err e, s)

  abbrev pub crash : Exec S A
  crash s = (panic, s)

  abbrev pub lift : Result A → Exec S A
  lift r s = (r, s)

  -- `if err != nil { cleanup(); return err }`, where the cleanup's own error is dropped.
  abbrev pub on_err_with : Result A → (S → S) → Exec S A
  on_err_with (ok a) f s = (ok a, s)
  on_err_with (err e) f s = (err e, f s)
  on_err_with panic f s = (panic, s)

  abbrev pub on_err : Exec S A → (S → S) → Exec S A
  on_err m f s = on_err_with (m s).0 f (m s).1

  -- `defer cleanup()`: it runs on every way out, the panics included.
  abbrev pub deferred : Exec S A → (S → S) → Exec S A
  deferred m f s = ((m s).0, f (m s).1)

  abbrev pub ignoring : Exec S A → Exec S (Unit {ℓ})
  ignoring m s = (heedless (m s).0, (m s).1)

  -- An action on the state that `f` leaves.
  abbrev pub after : (S → S) → Exec S A → Exec S A
  after f m s = m (f s)

module _ {ℓ} {S A B : Type ℓ} where
  abbrev pub continue : Result A → (A → Exec S B) → Exec S B
  continue (ok a) f s = f a s
  continue (err e) f s = (err e, s)
  continue panic f s = (panic, s)

  infixl 5 ◌>>=◌ ◌>>◌
  abbrev pub ◌>>=◌ : Exec S A → (A → Exec S B) → Exec S B
  ◌>>=◌ m f s = continue (m s).0 f (m s).1

  abbrev pub ◌>>◌ : Exec S A → Exec S B → Exec S B
  m >> k = m >>= λ _. k

  -- A step whose result is known is replaced by its result.
  pub bind-ok :
      (m : Exec S A) (f : A → Exec S B) (s t : S) (a : A) → m s ≡ (ok a, t) → (m >>= f) s ≡ f a t
  bind-ok m f s t a h = λ i. continue (h i).0 f (h i).1

  pub bind-err :
      (m : Exec S A) (f : A → Exec S B) (s t : S) (e : Error)
      → m s ≡ (err e, t)
      → (m >>= f) s ≡ (err e, t)
  bind-err m f s t e h = λ i. continue (h i).0 f (h i).1

  -- A sequence that succeeds has a first step that did.
  pub bind_inv :
      (m : Exec S A) (f : A → Exec S B) (s : S) {b : B} {t : S}
      → (m >>= f) s ≡ (ok b, t)
      → (a : A) × (s' : S) × (m s ≡ (ok a, s')) × (f a s' ≡ (ok b, t))
  bind_inv m f s {b} {t} h = go (m s).0 (m s).1 refl h
    where
      go :
          (r : Result A) (s' : S)
          → m s ≡ (r, s')
          → continue r f s' ≡ (ok b, t)
          → (a : A) × (s' : S) × (m s ≡ (ok a, s')) × (f a s' ≡ (ok b, t))
      go (ok a) s' e h' = (a, s', e, h')
      go (err x) s' e h' = absurd (cc (ap (λ p. p.0) h'))
      go panic s' e h' = absurd (cc (ap (λ p. p.0) h'))

module _ {ℓ} {S A : Type ℓ} where
  pub on_err_inv :
      (m : Exec S A) (f : S → S) (s : S) {a : A} {t : S}
      → on_err m f s ≡ (ok a, t)
      → m s ≡ (ok a, t)
  on_err_inv m f s {a} {t} h = go (m s).0 (m s).1 refl h
    where
      go :
          (r : Result A) (s' : S) → m s ≡ (r, s') → on_err_with r f s' ≡ (ok a, t) → m s ≡ (ok a, t)
      go (ok x) s' e h' = e ∙ h'
      go (err x) s' e h' = absurd (cc (ap (λ p. p.0) h'))
      go panic s' e h' = absurd (cc (ap (λ p. p.0) h'))

  pub on_err-ok :
      (m : Exec S A) (f : S → S) (s t : S) (a : A) → m s ≡ (ok a, t) → on_err m f s ≡ (ok a, t)
  on_err-ok m f s t a h = λ i. on_err_with (h i).0 f (h i).1

  pub on_err-err :
      (m : Exec S A) (f : S → S) (s t : S) (e : Error)
      → m s ≡ (err e, t)
      → on_err m f s ≡ (err e, f t)
  on_err-err m f s t e h = λ i. on_err_with (h i).0 f (h i).1

  pub deferred-eq :
      (m : Exec S A) (f : S → S) (s t : S) (r : Result A) → m s ≡ (r, t) → deferred m f s ≡ (r, f t)
  deferred-eq m f s t r h = λ i. ((h i).0, f (h i).1)

-- A loop on fuel returns `ok none` where the fuel runs out. A sequence does not if its last part does
-- not, at each state in which that part starts.
module _ {ℓ} {S A B : Type ℓ} where
  pub bind-ne-none :
      (m : Exec S A) (f : A → Exec S (Option B)) (s : S)
      → ((a : A) (t : S) → m s ≡ (ok a, t) → (f a t).0 ≢ ok none)
      → ((m >>= f) s).0 ≢ ok none
  bind-ne-none m f s h = go (m s).0 (m s).1 refl
    where
      go : (r : Result A) (t : S) → m s ≡ (r, t) → (continue r f t).0 ≢ ok none
      go (ok a) t e = h a t e
      go (err x) t e = λ p. cc
      go panic t e = λ p. cc

module _ {ℓ} {S B : Type ℓ} where
  pub if-ne-none :
      (b : Bool) (m n : Exec S (Option B)) (s : S)
      → (m s).0 ≢ ok none
      → (n s).0 ≢ ok none
      → ((if b then m else n) s).0 ≢ ok none
  if-ne-none true m n s hm hn = hm
  if-ne-none false m n s hm hn = hn
