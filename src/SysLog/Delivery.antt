-- ===== src/SysLog/Delivery.antt =====
-- What a line of the log does to the listeners of agent/server/syslog/syslog.go.
use droidmole.Base.{
  ◌-◌, ◌+◌, min, replicate, length-append, length-replicate, sym, ltb, ℕ, zero, suc, ◌≡◌, refl, ap,
  ◌∙◌, arith, ◌==◌, Bool, Bool-cases, true, false, if◌then◌else◌, List, [], ◌∷◌, ◌++◌, append_assoc,
  append-nil, inl, inr, take-length, drop-length, length, Bytes,
}
use droidmole.Go.{ok}
use droidmole.SysLog.{Listener, SysLog, send, deliver}
use droidmole.SysLog.Rounds.{mem, Distinct, still_open, offered, offered-at, send_below-exact}

-- Where no client is twice in the list, the line is sent to each client once.
pub deliver_once :
    (msg : Bytes) (s : SysLog)
    → Distinct s.clients
    → let (r, t) = deliver msg s in
      (r ≡ ok tt)
      × (t.clients ≡ still_open s.listeners s.clients)
      × ((b : ℕ)
          → t.listeners b
            ≡ (if mem b s.clients then (send msg (s.listeners b)).1 else s.listeners b))
unfolding deliver
deliver_once msg s d = rw (send_below-exact (length s.clients) msg s (omega arith)) (
    rw (take-length s.clients) (
      rw (drop-length s.clients)
        (refl, append-nil _, λ b. offered-at msg s.clients s.listeners b d)))

-- How often a listener is in the list of the clients.
abbrev pub times : ℕ → List ℕ → ℕ
times b [] = 0
times b (a ∷ cs) = if a == b then suc (times b cs) else times b cs

-- The listener with the line as often as it is offered, up to 100 lines; a closed one gets none.
abbrev pub with_line : Bytes → ℕ → Listener → Listener
with_line msg n l = record {
  channel =
      if l.closed then l.channel else l.channel ++ replicate (min n (100 - length l.channel)) msg;
  closed = l.closed;
}

replicate-snoc : (n : ℕ) (x : Bytes) → replicate n x ++ x ∷ [] ≡ replicate (suc n) x
replicate-snoc zero x = refl
replicate-snoc (suc n) x = ap (λ l. x ∷ l) (replicate-snoc n x)

with_line-none : (msg : Bytes) (l : Listener) → with_line msg 0 l ≡ l
with_line-none msg l = λ i. record { channel = same l.closed i; closed = l.closed }
  where
    none_more : (m : ℕ) → min 0 m ≡ 0
    none_more m = omega arith

    same :
        (c : Bool)
        → (if c then l.channel else l.channel ++ replicate (min 0 (100 - length l.channel)) msg)
          ≡ l.channel
    same true = refl
    same false = rw (none_more (100 - length l.channel)) (append-nil l.channel)

send-with_line :
    (msg : Bytes) (n : ℕ) (l : Listener)
    → (send msg (with_line msg n l)).1 ≡ with_line msg (suc n) l
unfolding send
send-with_line msg n l = go l.channel l.closed
  where
    room :
        (ch : List Bytes)
        → length (ch ++ replicate (min n (100 - length ch)) msg)
          ≡ length ch + min n (100 - length ch)
    room ch =
        length-append ch (replicate (min n (100 - length ch)) msg)
        ∙ ap (λ k. length ch + k) (length-replicate (min n (100 - length ch)) msg)

    go :
        (ch : List Bytes) (c : Bool)
        → (send msg (with_line msg n (record { channel = ch; closed = c }))).1
          ≡ with_line msg (suc n) (record { channel = ch; closed = c })
    go ch true = refl
    go ch false =
        elim (Bool-cases (ltb (length (ch ++ replicate (min n (100 - length ch)) msg)) 100)) [
          | inl h ↦
              let more : min (suc n) (100 - length ch) ≡ suc (min n (100 - length ch)) =
                ground (arith, room ch) in
              rw (h, more)
                (λ i. record {
                  channel =
                      (append_assoc ch (replicate (min n (100 - length ch)) msg) (msg ∷ [])
                          ∙ ap (λ l. ch ++ l) (replicate-snoc (min n (100 - length ch)) msg))
                        i;
                  closed = false;
                })
          | inr h ↦
              let same : min (suc n) (100 - length ch) ≡ min n (100 - length ch) =
                ground (arith, room ch) in
              rw (h, same) refl
        ]

offered-with_line :
    (msg : Bytes) (cs : List ℕ) (h : ℕ → Listener) (b : ℕ)
    → offered msg cs h b ≡ with_line msg (times b cs) (h b)
offered-with_line msg [] h b = sym (with_line-none msg (h b))
offered-with_line msg (a ∷ cs) h b = ground (
  arith,
  offered-with_line msg cs h b,
  offered-with_line msg cs h a,
  send-with_line msg (times b cs) (h b),
)

-- A line of the log, whatever the state. The processor does not panic. The clients that are left are the
-- ones that are not closed, in their order. Each listener that is not closed has the line at the end of
-- its channel, once for each time that it is in the list of the clients, as far as its channel of 100
-- lines has room; nothing else changes in any listener.
pub deliver_exact :
    (msg : Bytes) (s : SysLog)
    → let (r, t) = deliver msg s in
      (r ≡ ok tt)
      × (t.clients ≡ still_open s.listeners s.clients)
      × ((b : ℕ) → t.listeners b ≡ with_line msg (times b s.clients) (s.listeners b))
unfolding deliver
deliver_exact msg s = rw (send_below-exact (length s.clients) msg s (omega arith)) (
    rw (take-length s.clients) (
      rw (drop-length s.clients)
        (refl, append-nil _, λ b. offered-with_line msg s.clients s.listeners b)))

pub next-deliver : (msg : Bytes) (s : SysLog) → (deliver msg s).1.next ≡ s.next
unfolding deliver
next-deliver msg s = rw (send_below-exact (length s.clients) msg s (omega arith)) refl
