-- ===== src/Emulator/Life/Past.antt =====
-- What has happened by the time that a goroutine of agent/server/emulator/emulator.go reports.
use droidmole.Base.{
  ℕ, suc, ◌+◌, ◌-◌, ◌≤◌, ◌<◌, ◌≡◌, refl, Bool, true, false, Option, none, some, List, [], ◌∷◌,
  if◌then◌else◌, Bytes, arith,
}
use droidmole.Go.{ok, err, panic}
use droidmole.Emulator.{exit_error}
use droidmole.Emulator.Life.{
  started, exited, framed, Connecting, dialling, waiting, opening, commanding, answering, over,
  Displaying, streaming, Watching, running, waited, reported, Emulator, begun, Step, connects,
  displays, exits, logs_end, tells, stops, connect, process_display, watch_emulator_exit, tell_on,
  act, step, run,
}
use droidmole.Emulator.Life.Once.{
  starts_in, exits_in, frames_in, frames_in-append, Fits, run-Fits, begun-Fits,
}

-- How many calls of connect have succeeded, and of processDisplay, and how often the process was found
-- to have ended, and the log to have ended.
abbrev pub answered : Step → Bool
answered (connects (ok t)) = true
answered _ = false

abbrev pub shown : Step → Bool
shown (displays (ok t)) = true
shown _ = false

abbrev pub ended : Step → Bool
ended (exits x signal) = true
ended _ = false

abbrev pub logged : Step → Bool
logged (logs_end last) = true
logged _ = false

abbrev pub tally : (Step → Bool) → List Step → ℕ
tally f [] = 0
tally f (s ∷ ss) = if f s then suc (tally f ss) else tally f ss

-- How many calls connect has behind it.
abbrev calls_at : Connecting → Bool → ℕ
calls_at dialling root = 0
calls_at waiting root = 1
calls_at opening root = 2
calls_at commanding root = 3
calls_at answering root = 4
calls_at over root = if root then 5 else 2

abbrev WatchFits : Watching → ℕ → ℕ → Type 0
WatchFits running x l = Unit {0}
WatchFits (waited e signal) x l = 0 < x
WatchFits reported x l = (0 < x) × (0 < l)

abbrev LogFits : Option Bytes → ℕ → Type 0
LogFits none l = Unit {0}
LogFits (some last) l = 0 < l

-- The answer of StreamDisplay is no frame.
abbrev ShownFits : Displaying → ℕ → ℕ → Type 0
ShownFits streaming frames n = frames < n
ShownFits _ frames n = frames ≤ n - 1

record Past (root : Bool) (c x l n : ℕ) (e : Emulator) : Type 0 where
  roots : e.root_adb ≡ root
  calls : calls_at e.connecting root ≤ c
  watches : WatchFits e.watching x l
  logs : LogFits e.log_end l
  frames : ShownFits e.displaying (frames_in e.reports) n

abbrev more : (Step → Bool) → Step → ℕ → ℕ
more f s n = if f s then suc n else n

tell-Past :
    (e : Emulator) (root : Bool) (c x l n : ℕ)
    → Past root c x l n e
    → Past root c x l n (watch_emulator_exit e)
unfolding watch_emulator_exit
tell-Past e root c x l n p = go e.watching e.log_end p.watches p.logs
  where
    go :
        (w : Watching) (o : Option Bytes)
        → WatchFits w x l
        → LogFits o l
        → Past root c x l n (tell_on w o e)
    go running o h k = p
    go reported o h k = p
    go (waited y signal) none h k = p
    go (waited y signal) (some last) h k =
        let z = exited (exit_error e.force_exit_requested signal y last) in
        ground (arith, frames_in-append e.reports (z ∷ []))

act-Past :
    (s : Step) (e : Emulator) (root : Bool) (c x l n : ℕ)
    → Past root c x l n e
    → Past root (more answered s c) (more ended s x) (more logged s l) (more shown s n) (act s e)
unfolding act connect process_display watch_emulator_exit
act-Past (connects (ok t)) e root c x l n p =
    ground (arith, frames_in-append e.reports (started ∷ []))
act-Past (connects (err y)) e root c x l n p = ground arith
act-Past (connects panic) e root c x l n p = ground arith
act-Past (displays (ok pixels)) e root c x l n p =
    let frame = framed (record { width = e.width; height = e.height; pixels = pixels }) in
    ground (arith, frames_in-append e.reports (frame ∷ []))
act-Past (displays (err y)) e root c x l n p = ground arith
act-Past (displays panic) e root c x l n p = ground arith
act-Past (exits y signal) e root c x l n p = ground arith
act-Past (logs_end last) e root c x l n p = ground arith
act-Past tells e root c x l n p = tell-Past e root c x l n p
act-Past (stops forced kill request_exit) e root c x l n p = record {
  roots = p.roots;
  calls = p.calls;
  watches = p.watches;
  logs = p.logs;
  frames = p.frames;
}

step-Past :
    (s : Step) (e : Emulator) (root : Bool) (c x l n : ℕ)
    → Past root c x l n e
    → Past root (more answered s c) (more ended s x) (more logged s l) (more shown s n) (step s e)
unfolding step
step-Past s e root c x l n p = go e.fatal
  where
    more-le : (f : Step → Bool) (s : Step) (m : ℕ) → m ≤ more f s m
    more-le f s m = ground arith

    later : {c' x' l' n' : ℕ} → c ≤ c' → x ≤ x' → l ≤ l' → n ≤ n' → Past root c' x' l' n' e
    later {c'} {x'} {l'} {n'} a b d f = ground arith

    go :
        (b : Bool)
        → Past root
            (more answered s c)
            (more ended s x)
            (more logged s l)
            (more shown s n)
            (if b then e else act s e)
    go true =
        later (more-le answered s c) (more-le ended s x) (more-le logged s l) (more-le shown s n)
    go false = act-Past s e root c x l n p

more-tally :
    (f : Step → Bool) (s : Step) (ss : List Step) (m : ℕ)
    → more f s m + tally f ss ≡ m + tally f (s ∷ ss)
more-tally f s ss m = ground arith

run-Past :
    (ss : List Step) (e : Emulator) (root : Bool) (c x l n : ℕ)
    → Past root c x l n e
    → Past root
        (c + tally answered ss)
        (x + tally ended ss)
        (l + tally logged ss)
        (n + tally shown ss)
        (run ss e)
unfolding run
run-Past [] e root c x l n p = rw (plus c, plus x, plus l, plus n) p
  where
    plus : (m : ℕ) → m + 0 ≡ m
    plus m = omega arith
run-Past (s ∷ ss) e root c x l n p = rw⁻¹ (more-tally answered s ss c) (
    rw⁻¹ (more-tally ended s ss x) (
      rw⁻¹ (more-tally logged s ss l) (
        rw⁻¹ (more-tally shown s ss n)
          (run-Past ss (step s e) root _ _ _ _ (step-Past s e root c x l n p)))))

-- Whatever the goroutines wait for returns, and in whatever order they run, at each moment: the start
-- and the exit of the emulator are reported once at most. For a start, connect has had an answer with no
-- error to each of its calls, which are the dial and WaitForEmulator, and three more where adb is to be
-- rooted. For an exit, Wait has returned and the log has come to its end. There are fewer frames than
-- answers with no error in processDisplay, of which the first is that of StreamDisplay, and for a frame
-- the dial has had its answer.
pub run-once :
    (ss : List Step) (root : Bool) (width height : ℕ)
    → let reports = (run ss (begun root width height)).reports in
      (starts_in reports ≤ 1)
      × (exits_in reports ≤ 1)
      × (0 < starts_in reports → (if root then 5 else 2) ≤ tally answered ss)
      × (0 < exits_in reports → (0 < tally ended ss) × (0 < tally logged ss))
      × (0 < frames_in reports → (frames_in reports < tally shown ss) × (0 < tally answered ss))
run-once ss root width height =
    let e = run ss (begun root width height) in
    once e (run-Fits ss (begun root width height) (begun-Fits root width height))
      (run-Past ss (begun root width height) root 0 0 0 0 at_first)
  where
    at_first : Past root 0 0 0 0 (begun root width height)
    at_first =
        unfold begun in
        record { roots = refl; calls = omega arith; watches = tt; logs = tt; frames = omega arith }

    once :
        (e : Emulator)
        → Fits e
        → Past root
            (0 + tally answered ss)
            (0 + tally ended ss)
            (0 + tally logged ss)
            (0 + tally shown ss)
            e
        → (starts_in e.reports ≤ 1)
          × (exits_in e.reports ≤ 1)
          × (0 < starts_in e.reports → (if root then 5 else 2) ≤ tally answered ss)
          × (0 < exits_in e.reports → (0 < tally ended ss) × (0 < tally logged ss))
          × (0 < frames_in e.reports
              → (frames_in e.reports < tally shown ss) × (0 < tally answered ss))
    once e f p = ground arith
