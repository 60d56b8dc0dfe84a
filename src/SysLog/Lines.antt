-- ===== src/SysLog/Lines.antt =====
-- The lines that a listener of agent/server/syslog/syslog.go gets.
use droidmole.Base.{
  ℕ, ◌+◌, ◌≡◌, ◌≢◌, refl, sym, ap, ◌∙◌, ◌≤◌, ◌<◌, arith, ◌==◌, ==_iff, Bool, true, false,
  if◌then◌else◌, Option, none, some, List, [], ◌∷◌, ◌++◌, append_assoc, append-nil, All, length,
  length-append, Bytes,
}
use droidmole.SysLog.{SysLog, capacity, send, listen, recv, close, front, behind}
use droidmole.SysLog.Streams.{
  Event, line, listens, takes, closes, step, run, NoClose, Live, step-Live, channel-line,
}

abbrev pub lines : List Event → List Bytes
lines [] = []
lines (line msg ∷ es) = msg ∷ lines es
lines (_ ∷ es) = lines es

-- What the listener gets in its receives.
abbrev pub kept : Option Bytes → List Bytes → List Bytes
kept none more = more
kept (some x) more = x ∷ more

abbrev pub got_in : ℕ → Event → SysLog → List Bytes → List Bytes
got_in a (takes b) s more = if b == a then kept (front (s.listeners a).channel) more else more
got_in a _ s more = more

unfoldable pub got : ℕ → SysLog → List Event → List Bytes
got a s [] = []
got a s (e ∷ es) = got_in a e s (got a (step e s) es)

-- The channel of the listener `a` after an event.
channel_line :
    (msg : Bytes) (a : ℕ) (s : SysLog)
    → Live a s
    → length (s.listeners a).channel < capacity
    → ((step (line msg) s).listeners a).channel ≡ (s.listeners a).channel ++ msg ∷ []
channel_line msg a s h l =
    ap (λ k. k.channel) (channel-line msg a s h) ∙ (unfold send in ground (arith, h.is_open))

channel_listens : (a : ℕ) (s : SysLog) → Live a s → (step listens s).listeners a ≡ s.listeners a
unfolding step listen
channel_listens a s h = ground (arith, h.inv.allocated a h.is_client)

channel_closes : (a b : ℕ) (s : SysLog) → a ≢ b → (step (closes b) s).listeners a ≡ s.listeners a
unfolding step close
channel_closes a b s n = ground arith

channel_takes :
    (a b : ℕ) (s : SysLog)
    → ((step (takes b) s).listeners a).channel
      ≡ (if b == a then behind (s.listeners a).channel else (s.listeners a).channel)
unfolding step recv
channel_takes a b s = ground (arith, ==_iff b a)

-- A receive moves the front of the channel to what was received.
takes_on :
    (ch : List Bytes) (hit : Bool) (more tail ls : List Bytes)
    → more ++ tail ≡ (if hit then behind ch else ch) ++ ls
    → (if hit then kept (front ch) more else more) ++ tail ≡ ch ++ ls
takes_on ch false more tail ls h = h
takes_on [] true more tail ls h = h
takes_on (x ∷ xs) true more tail ls h = ap (λ ys. x ∷ ys) h

length-takes : (ch : List Bytes) (hit : Bool) → length (if hit then behind ch else ch) ≤ length ch
length-takes ch false = omega arith
length-takes [] true = omega arith
length-takes (x ∷ xs) true = omega arith

-- As long as the lines cannot fill its channel, a listener that nobody closes gets every line, in
-- order and once: what it has received and what is in its channel are what was in the channel before,
-- and the lines since then.
pub got_every_line :
    (es : List Event) (a : ℕ) (s : SysLog)
    → All (NoClose a) es
    → Live a s
    → length (s.listeners a).channel + length (lines es) ≤ capacity
    → got a s es ++ ((run s es).listeners a).channel ≡ (s.listeners a).channel ++ lines es
unfolding got run
got_every_line [] a s n h l = sym (append-nil _)
got_every_line (line msg ∷ es) a s n h l =
    let c = channel_line msg a s h (omega arith) in
    got_every_line es a (step (line msg) s) n.1 (step-Live (line msg) a s n.0 h)
      (rw c (omega (arith, length-append (s.listeners a).channel (msg ∷ []))))
    ∙ rw c (append_assoc _ (msg ∷ []) (lines es))
got_every_line (listens ∷ es) a s n h l =
    let c = channel_listens a s h in
    got_every_line es a (step listens s) n.1 (step-Live listens a s n.0 h) (rw c l) ∙ rw c refl
got_every_line (closes b ∷ es) a s n h l =
    let c = channel_closes a b s n.0 in
    got_every_line es a (step (closes b) s) n.1 (step-Live (closes b) a s n.0 h) (rw c l)
    ∙ rw c refl
got_every_line (takes b ∷ es) a s n h l =
    let ch = (s.listeners a).channel in
    let c = channel_takes a b s in
    takes_on ch (b == a) (got a (step (takes b) s) es) _ (lines es) (
      got_every_line es a (step (takes b) s) n.1 (step-Live (takes b) a s n.0 h)
        (rw c (omega (arith, length-takes ch (b == a))))
      ∙ rw c refl)
