-- ===== src/SysLog/Streams.antt =====
-- The listeners of agent/server/syslog/syslog.go under any order of lines, new listeners, receives and
-- closes. `StreamSysLog` of agent/server/controller.go listens, and then only receives.
use droidmole.Base.{
  ℕ, ◌≡◌, ◌≢◌, refl, ap, ◌∙◌, ◌≤◌, ◌<◌, arith, ◌==◌, ==_iff, true, false, not, ◌||◌, ◌&&◌, List, [],
  ◌∷◌, ◌++◌, All, length, length-append, Bytes,
}
use droidmole.SysLog.{Listener, SysLog, capacity, start, send, deliver, listen, recv, close}
use droidmole.SysLog.Rounds.{mem, Distinct, still_open}
use droidmole.SysLog.Delivery.{deliver_once, next-deliver}

pub data Event : Type 0 where
  line : Bytes → Event
  listens : Event
  takes : ℕ → Event
  closes : ℕ → Event

unfoldable pub step : Event → SysLog → SysLog
step (line msg) s = (deliver msg s).1
step listens s = (listen s).1
step (takes a) s = (recv a s).1
step (closes a) s = close a s

unfoldable pub run : SysLog → List Event → SysLog
run s [] = s
run s (e ∷ es) = run (step e s) es

-- What holds between two events.
pub record Inv (s : SysLog) : Type 0 where
  pub distinct : Distinct s.clients
  pub allocated : (a : ℕ) → mem a s.clients ≡ true → a < s.next
  pub bounded : (a : ℕ) → length (s.listeners a).channel ≤ capacity

mem-still_open :
    (h : ℕ → Listener) (cs : List ℕ) (b : ℕ)
    → mem b (still_open h cs) ≡ (not (h b).closed && mem b cs)
mem-still_open h [] b = ground arith
mem-still_open h (a ∷ cs) b = ground (arith, mem-still_open h cs b)

still_open-Distinct : (h : ℕ → Listener) (cs : List ℕ) → Distinct cs → Distinct (still_open h cs)
still_open-Distinct h [] d = tt
still_open-Distinct h (a ∷ cs) d =
    ground (arith, mem-still_open h cs a, still_open-Distinct h cs d.1)

mem-snoc : (cs : List ℕ) (a b : ℕ) → mem b (cs ++ a ∷ []) ≡ (mem b cs || a == b)
mem-snoc [] a b = ground arith
mem-snoc (c ∷ cs) a b = ground (arith, mem-snoc cs a b)

snoc-Distinct : (cs : List ℕ) (a : ℕ) → Distinct cs → mem a cs ≡ false → Distinct (cs ++ a ∷ [])
snoc-Distinct [] a d m = (refl, tt)
snoc-Distinct (c ∷ cs) a d m = ground (arith, mem-snoc cs a c, snoc-Distinct cs a d.1)

length-send :
    (msg : Bytes) (l : Listener)
    → length l.channel ≤ capacity
    → length (send msg l).1.channel ≤ capacity
unfolding send
length-send msg l h = ground (arith, length-append l.channel (msg ∷ []))

step-Inv : (e : Event) (s : SysLog) → Inv s → Inv (step e s)
unfolding step
step-Inv (line msg) s i =
    let (r, cs, ls) = deliver_once msg s i.distinct in
    record {
      distinct = rw cs (still_open-Distinct s.listeners s.clients i.distinct);
      allocated = λ a m.
          rw (next-deliver msg s)
            (ground (arith, i.allocated a, ap (mem a) cs, mem-still_open s.listeners s.clients a));
      bounded = λ a. rw (ls a) (ground (arith, i.bounded a, length-send msg (s.listeners a)));
    }
step-Inv listens s i =
    unfold listen in
    record {
      distinct = snoc-Distinct s.clients s.next i.distinct (unallocated s i);
      allocated = λ a m. ground (arith, i.allocated a, mem-snoc s.clients s.next a);
      bounded = λ a. ground (arith, i.bounded a);
    }
  where
    unallocated : (s : SysLog) → Inv s → mem s.next s.clients ≡ false
    unallocated s i = ground (arith, i.allocated s.next)
step-Inv (takes a) s i =
    unfold recv in
    record {
      distinct = i.distinct;
      allocated = i.allocated;
      bounded = λ b. ground (arith, i.bounded b, i.bounded a);
    }
step-Inv (closes a) s i =
    unfold close in
    record {
      distinct = i.distinct;
      allocated = i.allocated;
      bounded = λ b. ground (arith, i.bounded b, i.bounded a);
    }

run-Inv : (es : List Event) (s : SysLog) → Inv s → Inv (run s es)
unfolding run
run-Inv [] s i = i
run-Inv (e ∷ es) s i = run-Inv es (step e s) (step-Inv e s i)

start-Inv : Inv start
unfolding start
start-Inv = record { distinct = tt; allocated = λ a m. ground arith; bounded = λ a. omega arith }

-- After any sequence of lines, new listeners, receives and closes, no channel holds more than
-- `capacity` lines, no listener is twice among the clients, and a new listener is none of them.
pub run_bounded : (es : List Event) → Inv (run start es)
run_bounded es = run-Inv es start start-Inv

abbrev pub NoClose : ℕ → Event → Type 0
NoClose a (closes b) = a ≢ b
NoClose a _ = Unit

-- A listener that is a client, and not closed.
pub record Live (a : ℕ) (s : SysLog) : Type 0 where
  pub inv : Inv s
  pub is_client : mem a s.clients ≡ true
  pub is_open : (s.listeners a).closed ≡ false

pub channel-line :
    (msg : Bytes) (a : ℕ) (s : SysLog)
    → Live a s
    → (step (line msg) s).listeners a ≡ (send msg (s.listeners a)).1
unfolding step
channel-line msg a s h =
    let (r, cs, ls) = deliver_once msg s h.inv.distinct in ls a ∙ rw h.is_client refl

pub step-Live : (e : Event) (a : ℕ) (s : SysLog) → NoClose a e → Live a s → Live a (step e s)
step-Live e a s n h = record {
  inv = step-Inv e s h.inv;
  is_client = client e s n h;
  is_open = open_still e s n h;
}
  where
    client : (e : Event) (s : SysLog) → NoClose a e → Live a s → mem a (step e s).clients ≡ true
    client (line msg) s n h =
        unfold step in
        let (r, cs, ls) = deliver_once msg s h.inv.distinct in
        rw cs (ground (arith, mem-still_open s.listeners s.clients a, h.is_open, h.is_client))
    client listens s n h =
        unfold step listen in ground (arith, mem-snoc s.clients s.next a, h.is_client)
    client (takes b) s n h = unfold step recv in h.is_client
    client (closes b) s n h = unfold step close in h.is_client

    open_still :
        (e : Event) (s : SysLog) → NoClose a e → Live a s → ((step e s).listeners a).closed ≡ false
    open_still (line msg) s n h =
        rw (channel-line msg a s h) (unfold send in ground (arith, h.is_open))
    open_still listens s n h = unfold step listen in ground (arith, h.is_open)
    open_still (takes b) s n h = unfold step recv in ground (arith, h.is_open)
    open_still (closes b) s n h = unfold step close in ground (arith, h.is_open, ==_iff b a)

-- A listener that nobody closes stays a client for good, whatever else happens. `StreamSysLog` closes
-- none, not even where its stream has failed.
pub unclosed_stays :
    (es : List Event) (a : ℕ) (s : SysLog) → All (NoClose a) es → Live a s → Live a (run s es)
unfolding run
unclosed_stays [] a s n h = h
unclosed_stays (e ∷ es) a s n h = unclosed_stays es a (step e s) n.1 (step-Live e a s n.0 h)
