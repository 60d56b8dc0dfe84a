-- ===== src/SysLog/Rounds.antt =====
-- The loop over the listeners of agent/server/syslog/syslog.go, from the last to the first.
use droidmole.Base.{
  ℕ, zero, suc, ◌≡◌, refl, ap, ◌∙◌, ◌≤◌, ◌<◌, arith, ◌==◌, Bool, Bool-cases, true, false, not, ◌||◌,
  if◌then◌else◌, some, List, [], ◌∷◌, ◌++◌, append_assoc, append-nil, ◌⊎◌, inl, inr, take, drop,
  get_elem?, length, Bytes,
}
use droidmole.Go.{ok}
use droidmole.SysLog.{Listener, SysLog, store, send, send_at, send_below}

abbrev pub mem : ℕ → List ℕ → Bool
mem b [] = false
mem b (a ∷ cs) = a == b || mem b cs

abbrev pub Distinct : List ℕ → Type 0
Distinct [] = Unit
Distinct (a ∷ cs) = (mem a cs ≡ false) × Distinct cs

-- The clients that are not closed, in their order.
abbrev pub still_open : (ℕ → Listener) → List ℕ → List ℕ
still_open h [] = []
still_open h (a ∷ cs) = if (h a).closed then still_open h cs else a ∷ still_open h cs

-- The line is sent to each client, the last one first.
abbrev pub offered : Bytes → List ℕ → (ℕ → Listener) → ℕ → Listener
offered msg [] h = h
offered msg (a ∷ cs) h = let k = offered msg cs h in store a (send msg (k a)).1 k

closed-send : (msg : Bytes) (l : Listener) → (send msg l).1.closed ≡ l.closed
unfolding send
closed-send msg l = ground arith

kept-send : (msg : Bytes) (l : Listener) → (send msg l).0 ≡ not l.closed
unfolding send
kept-send msg l = ground arith

module _ (msg : Bytes) where
  pub offered-at :
      (cs : List ℕ) (h : ℕ → Listener) (b : ℕ)
      → Distinct cs
      → offered msg cs h b ≡ (if mem b cs then (send msg (h b)).1 else h b)
  offered-at [] h b d = refl
  offered-at (a ∷ cs) h b d = ground (arith, offered-at cs h b d.1, offered-at cs h a d.1)

  offered-append :
      (cs bs : List ℕ) (h : ℕ → Listener)
      → offered msg (cs ++ bs) h ≡ offered msg cs (offered msg bs h)
  offered-append [] bs h = refl
  offered-append (a ∷ cs) bs h = ap (λ k. store a (send msg (k a)).1 k) (offered-append cs bs h)

still_open-append :
    (h : ℕ → Listener) (cs bs : List ℕ)
    → still_open h (cs ++ bs) ≡ still_open h cs ++ still_open h bs
still_open-append h [] bs = refl
still_open-append h (a ∷ cs) bs = ground (arith, still_open-append h cs bs)

take-suc :
    (xs : List ℕ) (i : ℕ)
    → i < length xs
    → (a : ℕ) × (get_elem? xs i ≡ some a)
      × (take (suc i) xs ≡ take i xs ++ a ∷ [])
      × (drop i xs ≡ a ∷ drop (suc i) xs)
take-suc [] i l = absurd (omega arith)
take-suc (x ∷ xs) zero l = (x, refl, refl, refl)
take-suc (x ∷ xs) (suc i) l =
    let (a, e, f, g) = take-suc xs i (omega arith) in (a, e, ap (λ ys. x ∷ ys) f, g)

-- The same clients are closed after a line.
still_open-store :
    (cs : List ℕ) (h : ℕ → Listener) (a : ℕ) (l : Listener)
    → l.closed ≡ (h a).closed
    → still_open (store a l h) cs ≡ still_open h cs
still_open-store [] h a l e = refl
still_open-store (b ∷ bs) h a l e = ground (arith, still_open-store bs h a l e)

take-take : (xs ys : List ℕ) (i : ℕ) → i ≤ length xs → take i (take i xs ++ ys) ≡ take i xs
take-take xs ys zero l = refl
take-take [] ys (suc i) l = absurd (omega arith)
take-take (x ∷ xs) ys (suc i) l = ap (λ zs. x ∷ zs) (take-take xs ys i (omega arith))

drop-take : (xs ys : List ℕ) (i : ℕ) → i ≤ length xs → drop i (take i xs ++ ys) ≡ ys
drop-take xs ys zero l = refl
drop-take [] ys (suc i) l = absurd (omega arith)
drop-take (x ∷ xs) ys (suc i) l = drop-take xs ys i (omega arith)

length-take_append : (xs ys : List ℕ) (i : ℕ) → i ≤ length xs → i ≤ length (take i xs ++ ys)
length-take_append xs ys zero l = omega arith
length-take_append [] ys (suc i) l = absurd (omega arith)
length-take_append (x ∷ xs) ys (suc i) l = omega (arith, length-take_append xs ys i (omega arith))

-- The loop over the clients below `i`.
abbrev pub done_below : Bytes → ℕ → SysLog → SysLog
done_below msg i s = record s {
  listeners = offered msg (take i s.clients) s.listeners;
  clients = still_open s.listeners (take i s.clients) ++ drop i s.clients;
}

-- One round on the client `a` at `i`, which is not or is kept.
module _ (i : ℕ) (msg : Bytes) (h : ℕ → Listener) (xs : List ℕ) (l : i < length xs) (a : ℕ)
    (f : take (suc i) xs ≡ take i xs ++ a ∷ []) where
  abbrev after_a : ℕ → Listener
  after_a = store a (send msg (h a)).1 h

  listeners-round :
      (ys : List ℕ)
      → offered msg (take i (take i xs ++ ys)) after_a ≡ offered msg (take (suc i) xs) h
  listeners-round ys =
      rw (take-take xs ys i (omega arith))
        (rw f (rw (offered-append msg (take i xs) (a ∷ []) h) refl))

  clients-round :
      (ys : List ℕ)
      → still_open after_a (take i (take i xs ++ ys)) ++ drop i (take i xs ++ ys)
        ≡ still_open h (take i xs) ++ ys
  clients-round ys = rw (take-take xs ys i (omega arith)) (
      rw (drop-take xs ys i (omega arith))
        (rw (still_open-store (take i xs) h a (send msg (h a)).1 (closed-send msg (h a))) refl))

  listeners-kept : offered msg (take i xs) after_a ≡ offered msg (take (suc i) xs) h
  listeners-kept = rw f (rw (offered-append msg (take i xs) (a ∷ []) h) refl)

  clients-kept :
      drop i xs ≡ a ∷ drop (suc i) xs
      → still_open after_a (take i xs) ++ drop i xs
        ≡ still_open h (take i xs) ++ a ∷ drop (suc i) xs
  clients-kept g =
      rw (still_open-store (take i xs) h a (send msg (h a)).1 (closed-send msg (h a))) (rw g refl)

  clients-gone :
      (h a).closed ≡ true
      → still_open h (take i xs) ++ drop (suc i) xs
        ≡ still_open h (take (suc i) xs) ++ drop (suc i) xs
  clients-gone gone =
      rw f (rw (still_open-append h (take i xs) (a ∷ [])) (rw gone (rw append-nil refl)))

  clients-here :
      (h a).closed ≡ false
      → still_open h (take i xs) ++ a ∷ drop (suc i) xs
        ≡ still_open h (take (suc i) xs) ++ drop (suc i) xs
  clients-here here =
      rw f (rw (still_open-append h (take i xs) (a ∷ [])) (rw here (rw append_assoc refl)))

pub send_below-exact :
    (i : ℕ) (msg : Bytes) (s : SysLog)
    → i ≤ length s.clients
    → send_below i msg s ≡ (ok tt, done_below msg i s)
unfolding send_below send_at
send_below-exact zero msg s l = refl
send_below-exact (suc i) msg s l =
    let (a, e, f, g) = take-suc s.clients i (omega arith) in
    round a e f g (Bool-cases (s.listeners a).closed) (send_below-exact i msg)
  where
    round :
        (a : ℕ)
        → get_elem? s.clients i ≡ some a
        → take (suc i) s.clients ≡ take i s.clients ++ a ∷ []
        → drop i s.clients ≡ a ∷ drop (suc i) s.clients
        → ((s.listeners a).closed ≡ true) ⊎ ((s.listeners a).closed ≡ false)
        → ((t : SysLog) → i ≤ length t.clients → send_below i msg t ≡ (ok tt, done_below msg i t))
        → send_below (suc i) msg s ≡ (ok tt, done_below msg (suc i) s)
    round a e f g (inl gone) ih = rw e (
        rw (kept-send msg (s.listeners a) ∙ ap not gone) (
          ih
            (record s {
              listeners = store a (send msg (s.listeners a)).1 s.listeners;
              clients = take i s.clients ++ drop (suc i) s.clients;
            })
            (length-take_append s.clients (drop (suc i) s.clients) i (omega arith))
          ∙ (λ j. (
            ok tt,
            record s {
              listeners =
                  listeners-round i msg s.listeners s.clients l a f (drop (suc i) s.clients) j;
              clients =
                  (clients-round i msg s.listeners s.clients l a f (drop (suc i) s.clients)
                      ∙ clients-gone i msg s.listeners s.clients l a f gone)
                    j;
            },
          ))))
    round a e f g (inr here) ih = rw e (
        rw (kept-send msg (s.listeners a) ∙ ap not here) (
          ih (record s { listeners = store a (send msg (s.listeners a)).1 s.listeners })
            (omega arith)
          ∙ (λ j. (
            ok tt,
            record s {
              listeners = listeners-kept i msg s.listeners s.clients l a f j;
              clients =
                  (clients-kept i msg s.listeners s.clients l a f g
                      ∙ clients-here i msg s.listeners s.clients l a f here)
                    j;
            },
          ))))
