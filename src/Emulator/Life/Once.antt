-- ===== src/Emulator/Life/Once.antt =====
-- How often the goroutines of agent/server/emulator/emulator.go report, and when.
use droidmole.Base.{
  ℕ, suc, ◌+◌, ◌≡◌, refl, Bool, true, false, Option, none, some, List, [], ◌∷◌, ◌++◌, Bytes, arith,
}
use droidmole.Go.{Result, ok, err, panic}
use droidmole.Emulator.{exit_error}
use droidmole.Emulator.Life.{
  Report, started, exited, framed, Connecting, dialling, over, Displaying, unstarted, subscribing,
  Watching, running, waited, reported, Emulator, begun, Step, connects, displays, exits, logs_end,
  tells, stops, connect, process_display, watch_emulator_exit, tell_on, act, step, run,
}

-- How many reports of each kind there are.
abbrev pub starts_in : List Report → ℕ
starts_in [] = 0
starts_in (started ∷ rs) = suc (starts_in rs)
starts_in (exited e ∷ rs) = starts_in rs
starts_in (framed f ∷ rs) = starts_in rs

abbrev pub exits_in : List Report → ℕ
exits_in [] = 0
exits_in (started ∷ rs) = exits_in rs
exits_in (exited e ∷ rs) = suc (exits_in rs)
exits_in (framed f ∷ rs) = exits_in rs

abbrev pub frames_in : List Report → ℕ
frames_in [] = 0
frames_in (started ∷ rs) = frames_in rs
frames_in (exited e ∷ rs) = frames_in rs
frames_in (framed f ∷ rs) = suc (frames_in rs)

abbrev pub starts_at : Connecting → ℕ
starts_at over = 1
starts_at _ = 0

abbrev pub exits_at : Watching → ℕ
exits_at reported = 1
exits_at _ = 0

-- Whether the dial is over, from where connect is.
abbrev pub dialled : Connecting → Bool
dialled dialling = false
dialled _ = true

-- No display before the dial, and no frame before the display.
abbrev pub DisplayFits : Displaying → Bool → ℕ → Type 0
DisplayFits unstarted c n = n ≡ 0
DisplayFits subscribing c n = (n ≡ 0) × (c ≡ true)
DisplayFits _ c n = c ≡ true

pub record Fits (e : Emulator) : Type 0 where
  pub begins : starts_in e.reports ≡ starts_at e.connecting
  pub ends : exits_in e.reports ≡ exits_at e.watching
  pub connected : e.controller ≡ dialled e.connecting
  pub shows : DisplayFits e.displaying e.controller (frames_in e.reports)

starts_in-append : (rs ss : List Report) → starts_in (rs ++ ss) ≡ starts_in rs + starts_in ss
starts_in-append [] ss = omega arith
starts_in-append (started ∷ rs) ss = omega (arith, starts_in-append rs ss)
starts_in-append (exited e ∷ rs) ss = starts_in-append rs ss
starts_in-append (framed f ∷ rs) ss = starts_in-append rs ss

exits_in-append : (rs ss : List Report) → exits_in (rs ++ ss) ≡ exits_in rs + exits_in ss
exits_in-append [] ss = omega arith
exits_in-append (started ∷ rs) ss = exits_in-append rs ss
exits_in-append (exited e ∷ rs) ss = omega (arith, exits_in-append rs ss)
exits_in-append (framed f ∷ rs) ss = exits_in-append rs ss

pub frames_in-append : (rs ss : List Report) → frames_in (rs ++ ss) ≡ frames_in rs + frames_in ss
frames_in-append [] ss = omega arith
frames_in-append (started ∷ rs) ss = frames_in-append rs ss
frames_in-append (exited e ∷ rs) ss = frames_in-append rs ss
frames_in-append (framed f ∷ rs) ss = omega (arith, frames_in-append rs ss)

connect-Fits : (r : Result (Unit {0})) (e : Emulator) → Fits e → Fits (connect r e)
unfolding connect
connect-Fits (ok t) e f = ground (
  arith,
  starts_in-append e.reports (started ∷ []),
  exits_in-append e.reports (started ∷ []),
  frames_in-append e.reports (started ∷ []),
)
connect-Fits (err x) e f = ground arith
connect-Fits panic e f = ground arith

process_display-Fits : (r : Result Bytes) (e : Emulator) → Fits e → Fits (process_display r e)
unfolding process_display
process_display-Fits (ok pixels) e f =
    let frame = framed (record { width = e.width; height = e.height; pixels = pixels }) in
    ground (
      arith,
      starts_in-append e.reports (frame ∷ []),
      exits_in-append e.reports (frame ∷ []),
      frames_in-append e.reports (frame ∷ []),
    )
process_display-Fits (err x) e f = ground arith
process_display-Fits panic e f = ground arith

tell-Fits : (e : Emulator) → Fits e → Fits (watch_emulator_exit e)
unfolding watch_emulator_exit
tell-Fits e f = go e.watching e.log_end refl
  where
    go : (w : Watching) (o : Option Bytes) → e.watching ≡ w → Fits (tell_on w o e)
    go running o h = f
    go reported o h = f
    go (waited x signal) none h = f
    go (waited x signal) (some last) h =
        let x = exited (exit_error e.force_exit_requested signal x last) in
        ground (
          arith,
          starts_in-append e.reports (x ∷ []),
          exits_in-append e.reports (x ∷ []),
          frames_in-append e.reports (x ∷ []),
        )

act-Fits : (s : Step) (e : Emulator) → Fits e → Fits (act s e)
unfolding act
act-Fits (connects r) e f = connect-Fits r e f
act-Fits (displays r) e f = process_display-Fits r e f
act-Fits (exits x signal) e f = ground arith
act-Fits (logs_end last) e f = ground arith
act-Fits tells e f = tell-Fits e f
act-Fits (stops forced kill request_exit) e f = record {
  begins = f.begins;
  ends = f.ends;
  connected = f.connected;
  shows = f.shows;
}

pub run-Fits : (ss : List Step) (e : Emulator) → Fits e → Fits (run ss e)
unfolding run step
run-Fits [] e f = f
run-Fits (s ∷ ss) e f = run-Fits ss (step s e) (ground (arith, act-Fits s e f))

pub begun-Fits : (root : Bool) (width height : ℕ) → Fits (begun root width height)
unfolding begun
begun-Fits root width height = record { begins = refl; ends = refl; connected = refl; shows = refl }
