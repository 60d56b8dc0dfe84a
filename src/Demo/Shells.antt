-- ===== src/Demo/Shells.antt =====
-- The goroutine of demo/backend/client that passes a shell's output on comes to an end.
use droidmole.Base.{
  ℕ, zero, suc, ◌≤◌, ◌<◌, ◌≡◌, refl, sym, ap, ◌∙◌, ◌≢◌, Bool, true, false, if◌then◌else◌, Option,
  none, some, List, [], length, arith,
}
use droidmole.Go.{Result, ok, err, panic, pure, continue, bind-ne-none}
use droidmole.Shell.{ShellResponse}
use droidmole.Grpc
use droidmole.Client.Shell
use droidmole.Client.Shell.{Output}
use droidmole.Demo.{Client, send_msg, shown, hear, shell_round, process_shell}

-- The responses that are still to come, of the shell that there is.
abbrev pub to_come : Option Shell.Shell → List (Option ShellResponse)
to_come none = []
to_come (some s) = s.client.incoming

shown-shell : (o : Option Output) (c : Client) → (shown o c).1.shell ≡ c.shell
unfolding shown send_msg Grpc.send
shown-shell none c = refl
shown-shell (some o) c = ground arith

-- A round that goes on has taken a response.
hear-takes :
    (s : Option Shell.Shell) (c : Client) (o : Output)
    → (hear s c).0 ≡ ok (some o)
    → suc (length (to_come (hear s c).1.shell)) ≤ length (to_come s)
unfolding hear Shell.recv Grpc.receive
hear-takes none c o e = absurd (cc e)
hear-takes (some s) c o e = ground arith

shell_round-takes :
    (c t : Client)
    → shell_round c ≡ (ok true, t)
    → suc (length (to_come t.shell)) ≤ length (to_come c.shell)
unfolding shell_round
shell_round-takes c t e = go (hear c.shell c).0 (hear c.shell c).1 refl e
  where
    go :
        (r : Result (Option Output)) (d : Client)
        → hear c.shell c ≡ (r, d)
        → continue r shown d ≡ (ok true, t)
        → suc (length (to_come t.shell)) ≤ length (to_come c.shell)
    go (ok none) d h k = absurd (cc (ap (λ p. p.0) k))
    go (ok (some o)) d h k =
        let same : t.shell ≡ d.shell = sym (ap (λ p. p.1.shell) k) ∙ shown-shell (some o) d in
        let fewer = hear-takes c.shell c o (ap (λ p. p.0) h) in
        rw same (rw (ap (λ p. p.1) h) at fewer)
    go (err x) d h k = absurd (cc (ap (λ p. p.0) k))
    go panic d h k = absurd (cc (ap (λ p. p.0) k))

-- With a round for each response that is still to come and one more, the goroutine ends, however the
-- shell and the socket behave: it never runs out of fuel.
pub process_shell-ends :
    (fuel : ℕ) (c : Client) → length (to_come c.shell) < fuel → (process_shell fuel c).0 ≢ ok none
unfolding process_shell
process_shell-ends zero c h = absurd (omega arith)
process_shell-ends (suc fuel) c h =
    bind-ne-none shell_round (λ on. if on then process_shell fuel else pure (some tt)) c
      (λ on t e. round on t e (λ k. process_shell-ends fuel t k))
  where
    round :
        (on : Bool) (t : Client)
        → shell_round c ≡ (ok on, t)
        → (length (to_come t.shell) < fuel → (process_shell fuel t).0 ≢ ok none)
        → ((if on then process_shell fuel else pure (some tt)) t).0 ≢ ok none
    round false t e ih = λ p. cc
    round true t e ih = ih (omega (arith, shell_round-takes c t e))
