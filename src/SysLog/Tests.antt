-- ===== src/SysLog/Tests.antt =====
-- The theorems about agent/server/syslog/syslog.go at concrete inputs.
use droidmole.Base.{ℕ, ◌≡◌, refl, ◌++◌, arith, List, [], ◌∷◌, bytes}
use droidmole.Go.{ok}
use droidmole.SysLog.{SysLog, start, send, deliver, listen, close}
use droidmole.SysLog.Rounds.{still_open}
use droidmole.SysLog.Delivery.{times, with_line, deliver_exact}
use droidmole.SysLog.Streams.{
  Event, line, listens, takes, closes, step, run, Inv, Live, run_bounded,
}
use droidmole.SysLog.Lines.{lines, got, got_every_line}

-- Two listeners, of which the first is closed.
abbrev two : SysLog
two = run start (listens ∷ listens ∷ closes 0 ∷ [])

drops_the_closed : (deliver (bytes "boot") two).1.clients ≡ 1 ∷ []
unfolding run start step listen close deliver send
drops_the_closed = refl

deliver_exact_example :
    let (r, t) = deliver (bytes "boot") two in
    (r ≡ ok tt)
    × (t.clients ≡ still_open two.listeners two.clients)
    × ((b : ℕ) → t.listeners b ≡ with_line (bytes "boot") (times b two.clients) (two.listeners b))
deliver_exact_example = deliver_exact (bytes "boot") two

run_bounded_example : Inv (run start (listens ∷ line (bytes "boot") ∷ takes 0 ∷ []))
run_bounded_example = run_bounded (listens ∷ line (bytes "boot") ∷ takes 0 ∷ [])

abbrev events : List Event
events = line (bytes "one") ∷ takes 1 ∷ line (bytes "two") ∷ closes 0 ∷ []

two-Live : Live 1 two
two-Live = record {
  inv = run_bounded (listens ∷ listens ∷ closes 0 ∷ []);
  is_client = unfold run start step listen close in refl;
  is_open = unfold run start step listen close in refl;
}

got_every_line_example :
    got 1 two events ++ ((run two events).listeners 1).channel
    ≡ (two.listeners 1).channel ++ lines events
got_every_line_example =
    got_every_line events 1 two (tt, (tt, (tt, ((λ h. absurd (omega arith)), tt)))) two-Live
      (unfold run start step listen close in omega arith)
