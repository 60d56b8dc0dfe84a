-- ===== src/Demo/Touches.antt =====
-- A touch in a browser (demo/backend/client), as the emulator gets it from the agent
-- (agent/server/emulator).
use droidmole.Base.{ℕ, ◌^◌, ◌<◌, ◌≡◌, refl, ap, ◌∙◌, true, some, [], ◌∷◌, ◌++◌, bytes, arith, pos}
use droidmole.Client.Agent
use droidmole.Client.Agent.{input}
use droidmole.Demo.{TouchEvent, Incoming, Client, handle}
use droidmole.Demo.Calls.{handle-calls}
use droidmole.Emulator.Controller
use droidmole.Emulator.Controller.{Host, touches, ask, int32, to_touch, process_input, send_touch}

int32-small : (n : ℕ) → n < 2 ^ 31 → int32 n ≡ pos n
unfolding int32
int32-small n h = ground arith

asked-ask : (a : Controller.Ask) (h : Host) → (ask a h).1.asked ≡ h.asked ++ a ∷ []
unfolding ask
asked-ask a h = ground arith

-- What the emulator should get.
abbrev pub touch_of : TouchEvent → Controller.Touch
touch_of e = record {
  x = pos e.x;
  y = pos e.y;
  identifier = pos e.id;
  pressure = pos e.pressure;
  touch_major = pos 0;
  touch_minor = pos 0;
  never_expires = true;
}

-- A browser's touch with numbers below 2 ^ 31, whatever the agent answered before: the browser makes one
-- call of the agent for it, and the agent, whose emulator is connected, makes one call of the emulator
-- for that call, with the same numbers, on display 0, as a touch that does not expire.
pub touch_arrives :
    (i : Incoming) (e : TouchEvent) (c : Client) (h : Host)
    → i.msg.kind ≡ bytes "touch-event"
    → i.msg.touch_event ≡ some e
    → e.id < 2 ^ 31
    → e.x < 2 ^ 31
    → e.y < 2 ^ 31
    → e.pressure < 2 ^ 31
    → (t : Agent.Touch) × ((handle i c).1.ac.calls ≡ c.ac.calls ++ input t ∷ [])
      × ((process_input true (some t) h).1.asked ≡ h.asked ++ touches (touch_of e ∷ []) 0 ∷ [])
unfolding process_input to_touch send_touch
touch_arrives i e c h k m a b d f = (
  record {
    identifier = e.id;
    x = e.x;
    y = e.y;
    pressure = e.pressure;
    touch_major = 0;
    touch_minor = 0;
  },
  handle-calls i c ∙ ap (λ cs. c.ac.calls ++ cs) (rw (k, m) refl),
  asked-ask _ h
      ∙ (rw
          (
            int32-small e.id a,
            int32-small e.x b,
            int32-small e.y d,
            int32-small e.pressure f,
            int32-small 0 (omega arith),
          )
          refl),
)
