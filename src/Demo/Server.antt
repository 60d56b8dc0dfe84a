-- ===== src/Demo/Server.antt =====
-- demo/backend/server/server.go: the browsers, and the two loops that pass frames and log lines on to
-- them. A loop passes one message on under the mutex, and `wsEndpoint` adds a browser under it.
use droidmole.Base.{
  ◌≡◌, refl, sym, ap, ◌∙◌, List, [], ◌∷◌, ◌++◌, map, append-nil, append_assoc, Bytes,
}
use droidmole.Go.{Result, ok, err, panic, Exec, pure, fail, crash, ◌>>◌}
use droidmole.Grpc.{Stream}
use droidmole.Client.Agent.{AgentClient, Frame}
use droidmole.Demo
use droidmole.Demo.{Incoming, Message, Client}
use droidmole.Demo.Frames.{News, frame, line, tell, view}

pub record Server : Type 0 where
  pub clients : List Client
  pub ac : AgentClient

-- A web socket that was upgraded or not, and what the Recv of each stream gives.
pub data Event : Type 0 where
  joins : Result (Stream (Result Incoming) Message) → Event
  shows : Result Frame → Event
  logs : Result Bytes → Event

unfoldable pub ws_endpoint : Result (Stream (Result Incoming) Message) → Exec Server (Unit {0})
ws_endpoint (ok ws) s = (ok tt, record s { clients = s.clients ++ Demo.new ws s.ac ∷ [] })
ws_endpoint (err e) s = (ok tt, s)
ws_endpoint panic s = (panic, s)

-- An error of one browser is logged, and the loop goes on.
tell_all : News → Exec Server (Unit {0})
tell_all n s = (ok tt, record s { clients = map (tell n) s.clients })

-- `log.Fatal` ends the program with the error.
unfoldable pub process_display : Result Frame → Exec Server (Unit {0})
unfolding tell_all
process_display (ok f) = tell_all (frame f)
process_display (err e) = fail e
process_display panic = crash

unfoldable pub process_sys_log : Result Bytes → Exec Server (Unit {0})
unfolding tell_all
process_sys_log (ok l) = tell_all (line l)
process_sys_log (err e) = fail e
process_sys_log panic = crash

unfoldable pub step : Event → Exec Server (Unit {0})
unfolding ws_endpoint process_display process_sys_log
step (joins ws) = ws_endpoint ws
step (shows f) = process_display f
step (logs l) = process_sys_log l

unfoldable pub run : List Event → Exec Server (Unit {0})
run [] = pure tt
run (e ∷ es) = do step e; run es

-- What happens, abstractly: browsers come, and there is news. The first error of a stream is the end.
pub data Happening : Type 0 where
  comes : Stream (Result Incoming) Message → Happening
  news : News → Happening

abbrev pub happenings : List Event → List Happening
happenings [] = []
happenings (joins (ok ws) ∷ es) = comes ws ∷ happenings es
happenings (joins (err e) ∷ es) = happenings es
happenings (shows (ok f) ∷ es) = news (frame f) ∷ happenings es
happenings (logs (ok l) ∷ es) = news (line l) ∷ happenings es
happenings (_ ∷ es) = []

abbrev pub news_of : List Happening → List News
news_of [] = []
news_of (comes ws ∷ hs) = news_of hs
news_of (news n ∷ hs) = n ∷ news_of hs

-- Each browser by itself: it is new where it comes, and is told all the news from there on.
abbrev pub sessions : AgentClient → List Happening → List Client
sessions ac [] = []
sessions ac (comes ws ∷ hs) = view (Demo.new ws ac) (news_of hs) ∷ sessions ac hs
sessions ac (news n ∷ hs) = sessions ac hs

abbrev told : List News → List Client → List Client
told ns cs = map (λ c. view c ns) cs

told-snoc :
    (ns : List News) (cs : List Client) (c : Client)
    → told ns (cs ++ c ∷ []) ≡ told ns cs ++ view c ns ∷ []
told-snoc ns [] c = refl
told-snoc ns (d ∷ cs) c = ap (λ l. view d ns ∷ l) (told-snoc ns cs c)

told-tell :
    (n : News) (ns : List News) (cs : List Client) → told ns (map (tell n) cs) ≡ told (n ∷ ns) cs
unfolding view
told-tell n ns [] = refl
told-tell n ns (c ∷ cs) = ap (λ l. view (tell n c) ns ∷ l) (told-tell n ns cs)

told-nil : (cs : List Client) → told [] cs ≡ cs
unfolding view
told-nil [] = refl
told-nil (c ∷ cs) = ap (λ l. c ∷ l) (told-nil cs)

unmoved : (cs : List Client) → told [] cs ++ [] ≡ cs
unmoved cs = append-nil (told [] cs) ∙ told-nil cs

run-told :
    (n : News) (es : List Event) (s : Server)
    → let t = record s { clients = map (tell n) s.clients } in
      (run es t).1.clients
        ≡ told (news_of (happenings es)) t.clients ++ sessions s.ac (happenings es)
      → (run es t).1.clients
        ≡ told (n ∷ news_of (happenings es)) s.clients ++ sessions s.ac (happenings es)
run-told n es s h =
    h
    ∙ ap (λ l. l ++ sessions s.ac (happenings es)) (told-tell n (news_of (happenings es)) s.clients)

-- After any order of browsers that join, frames, lines and failures, the browsers of the server are
-- those that it had and those that joined before the first stream failed, in order, and each is as if
-- it were the only one: told the news since it joined, and nothing else. So no failure of one browser
-- keeps news from another.
pub run_refines :
    (es : List Event) (s : Server)
    → (run es s).1.clients
      ≡ map (λ c. view c (news_of (happenings es))) s.clients ++ sessions s.ac (happenings es)
unfolding run step
run_refines [] s = sym (unmoved s.clients)
run_refines (joins (ok ws) ∷ es) s =
    let c = Demo.new ws s.ac in
    let ns = news_of (happenings es) in
    run_refines es (record s { clients = s.clients ++ c ∷ [] })
    ∙ ap (λ l. l ++ sessions s.ac (happenings es)) (told-snoc ns s.clients c)
    ∙ append_assoc (told ns s.clients) (view c ns ∷ []) (sessions s.ac (happenings es))
run_refines (joins (err e) ∷ es) s = run_refines es s
run_refines (joins panic ∷ es) s = sym (unmoved s.clients)
run_refines (shows (ok f) ∷ es) s = run-told (frame f) es s (run_refines es _)
run_refines (shows (err e) ∷ es) s = sym (unmoved s.clients)
run_refines (shows panic ∷ es) s = sym (unmoved s.clients)
run_refines (logs (ok l) ∷ es) s = run-told (line l) es s (run_refines es _)
run_refines (logs (err e) ∷ es) s = sym (unmoved s.clients)
run_refines (logs panic ∷ es) s = sym (unmoved s.clients)
