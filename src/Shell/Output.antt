-- ===== src/Shell/Output.antt =====
-- The device's output on its way through agent/server/shell/shell.go to the client.
use droidmole.Base.{
  ℕ, ◌≡◌, refl, sym, ap, ◌∙◌, subst, arith, Bool, true, false, if◌then◌else◌, Option, none, some,
  ◌⊎◌, inl, inr, List, [], ◌∷◌, ◌++◌, map, append_assoc, append-nil, All, Bytes,
}
use droidmole.Go.{Error, Result, ok, err, panic}
use droidmole.Net.{Conn}
use droidmole.Net.Laws.{arriving}
use droidmole.Grpc
use droidmole.Grpc.{Stream}
use droidmole.Shell.{
  ShellRequest, ShellResponse, Shell, opened, respond, handle_request, handle_response, goes_on,
  ends_with, Turn, reads_request, reads_response, takes_request, takes_response, may_read,
  read_request, read_response, take_request, take_response, runs, step, run,
}
use droidmole.Shell.Requests.{Minds-handle_request}
use droidmole.Shell.Pending.{IsOutput, wires, shown, Pending, Pending-read, Pending-as, send_cases}

outgoing-receive :
    (p : Stream ShellRequest ShellResponse) → (Grpc.receive p).1.outgoing ≡ p.outgoing
unfolding Grpc.receive
outgoing-receive p = ground arith

map-snoc :
    (xs : List (ℕ × Bytes)) (x : ℕ × Bytes)
    → map shown (xs ++ x ∷ []) ≡ map shown xs ++ shown x ∷ []
map-snoc [] x = refl
map-snoc (y ∷ xs) x = ap (λ ys. shown y ∷ ys) (map-snoc xs x)

handle_output :
    (id : ℕ) (content : Bytes) (s : Shell)
    → (id ≡ 1) ⊎ (id ≡ 2)
    → handle_response id content s ≡ goes_on (respond (shown (id, content)) s)
unfolding handle_response
handle_output id content s (inl e) = rw e refl
handle_output id content s (inr e) = rw e refl

reading :
    (o : Option (Result (ℕ × Bytes))) (b : Bool) (v : Option (Result (Unit {0})))
    → may_read o b v ≡ true
    → (o ≡ none) × (v ≡ none)
reading none false none h = (refl, refl)
reading none false (some r) h = absurd (cc h)
reading none true v h = absurd (cc h)
reading (some r) b v h = absurd (cc h)

running : (v : Option (Result (Unit {0}))) → runs v ≡ true → v ≡ none
running none h = refl
running (some r) h = absurd (cc h)

module _ (base : List ShellResponse) (ps : List (ℕ × Bytes)) (outputs : All IsOutput ps) where
  -- The client got some of the packets, and the others are still to come as long as the loop runs.
  record Flow (s : Shell) : Type 0 where
    taken : List (ℕ × Bytes)
    rest : List (ℕ × Bytes)
    split : ps ≡ taken ++ rest
    shows : s.peer.outgoing ≡ base ++ map shown taken
    going : s.verdict ≡ none → Pending s.response rest s.conn

  if-Flow : (b : Bool) (s t : Shell) → (b ≡ true → Flow s) → Flow t → Flow (if b then s else t)
  if-Flow true s t h k = h refl
  if-Flow false s t h k = k

  All-rest : (xs ys : List (ℕ × Bytes)) → All IsOutput (xs ++ ys) → All IsOutput ys
  All-rest [] ys h = h
  All-rest (x ∷ xs) ys h = All-rest xs ys h.1

  read_response-Flow :
      (s : Shell) → s.response ≡ none → s.verdict ≡ none → Flow s → Flow (read_response s)
  unfolding read_response
  read_response-Flow s n v f = record {
    taken = f.taken;
    rest = f.rest;
    split = f.split;
    shows = f.shows;
    going = λ w.
        Pending-read f.rest s.conn
          (All-rest f.taken f.rest (subst (λ xs. All IsOutput xs) f.split outputs))
          (subst (λ o. Pending o f.rest s.conn) n (f.going v));
  }

  read_request-Flow : (s : Shell) → Flow s → Flow (read_request s)
  unfolding read_request Grpc.receive
  read_request-Flow s f = record {
    taken = f.taken;
    rest = f.rest;
    split = f.split;
    shows = outgoing-receive s.peer ∙ f.shows;
    going = f.going;
  }

  -- The loop ends: nothing is still to come.
  over-Flow :
      (s t : Shell) (r : Result (Unit {0}))
      → t.peer.outgoing ≡ s.peer.outgoing
      → Flow s
      → Flow (record t { verdict = some r })
  over-Flow s t r p f = record {
    taken = f.taken;
    rest = f.rest;
    split = f.split;
    shows = p ∙ f.shows;
    going = λ v. absurd (cc v);
  }

  goes_on-Flow :
      (s t : Shell) (r : Result (Unit {0}))
      → t.peer ≡ s.peer
      → t.response ≡ s.response
      → t.verdict ≡ s.verdict
      → (t.conn.closed ≡ false → (s.conn.closed ≡ false) × (t.conn.incoming ≡ s.conn.incoming))
      → Flow s
      → Flow (goes_on (r, t))
  unfolding goes_on
  goes_on-Flow s t (ok x) p o v q f = record {
    taken = f.taken;
    rest = f.rest;
    split = f.split;
    shows = ap (λ z. z.outgoing) p ∙ f.shows;
    going = λ w. rw o (Pending-as s.response f.rest s.conn t.conn q (f.going (sym v ∙ w)));
  }
  goes_on-Flow s t (err e) p o v q f = over-Flow s t (err e) (ap (λ z. z.outgoing) p) f
  goes_on-Flow s t panic p o v q f = over-Flow s t panic (ap (λ z. z.outgoing) p) f

  take_request-Flow :
      (o : Option (Result ShellRequest)) (s : Shell) → Flow s → Flow (take_request o s)
  unfolding take_request ends_with
  take_request-Flow none s f = f
  take_request-Flow (some (ok m)) s f =
      let u = record s { request = none } in
      let q = Minds-handle_request m u in
      goes_on-Flow s (handle_request m u).1 (handle_request m u).0 q.0 q.1 q.2 q.3 f
  take_request-Flow (some (err e)) s f = over-Flow s s (err e) refl f
  take_request-Flow (some panic) s f = over-Flow s s panic refl f

  -- The packet that the goroutine holds is handed to the client.
  hand-Flow :
      (s : Shell) (p : ℕ × Bytes)
      → s.response ≡ some (ok p)
      → s.verdict ≡ none
      → Flow s
      → Flow (goes_on (respond (shown p) (record s { response = none })))
  unfolding respond
  hand-Flow s p h v f =
      go (subst (λ o. Pending o f.rest s.conn) h (f.going v)) (send_cases (shown p) s.peer)
    where
      go :
          Pending (some (ok p)) f.rest s.conn
          → (((Grpc.send (shown p) s.peer).0 ≡ ok tt)
              × ((Grpc.send (shown p) s.peer).1.outgoing ≡ s.peer.outgoing ++ shown p ∷ []))
            ⊎ ((e : Error) × ((Grpc.send (shown p) s.peer).0 ≡ err e)
                × ((Grpc.send (shown p) s.peer).1.outgoing ≡ s.peer.outgoing))
          → Flow (goes_on (respond (shown p) (record s { response = none })))
      go (later, e, k) (inl (r, o)) = rw r (
          unfold goes_on in
          record {
            taken = f.taken ++ p ∷ [];
            rest = later;
            split =
                f.split ∙ ap (λ xs. f.taken ++ xs) e ∙ sym (append_assoc f.taken (p ∷ []) later);
            shows =
                o
                ∙ ap (λ xs. xs ++ shown p ∷ []) f.shows
                ∙ append_assoc base (map shown f.taken) (shown p ∷ [])
                ∙ ap (λ xs. base ++ xs) (sym (map-snoc f.taken p));
            going = λ w. k;
          })
      go q (inr (e, r, o)) = rw r (
          unfold goes_on in
          over-Flow s (record s { response = none; peer = (Grpc.send (shown p) s.peer).1 }) (err e)
            o f)

  take_response-Flow :
      (o : Option (Result (ℕ × Bytes))) (s : Shell)
      → s.response ≡ o
      → s.verdict ≡ none
      → Flow s
      → Flow (take_response o s)
  unfolding take_response ends_with
  take_response-Flow none s h v f = f
  take_response-Flow (some (ok (id, content))) s h v f =
      let (later, e, k) = subst (λ o. Pending o f.rest s.conn) h (f.going v) in
      let fits =
        subst (λ xs. All IsOutput xs) e
          (All-rest f.taken f.rest (subst (λ xs. All IsOutput xs) f.split outputs)) in
      rw (handle_output id content (record s { response = none }) fits.0.0)
        (hand-Flow s (id, content) h v f)
  take_response-Flow (some (err e)) s h v f = over-Flow s s (err e) refl f
  take_response-Flow (some panic) s h v f = over-Flow s s panic refl f

  step-Flow : (t : Turn) (s : Shell) → Flow s → Flow (step t s)
  unfolding step
  step-Flow reads_request s f =
      if-Flow (may_read s.request s.requests_end s.verdict) (read_request s) s
        (λ _. read_request-Flow s f) f
  step-Flow reads_response s f =
      if-Flow (may_read s.response s.responses_end s.verdict) (read_response s) s
        (λ h.
          let (n, v) = reading s.response s.responses_end s.verdict h in read_response-Flow s n v f)
        f
  step-Flow takes_request s f =
      if-Flow (runs s.verdict) (take_request s.request s) s (λ _. take_request-Flow s.request s f) f
  step-Flow takes_response s f =
      if-Flow (runs s.verdict) (take_response s.response s) s
        (λ h. take_response-Flow s.response s refl (running s.verdict h) f) f

  run-Flow : (ts : List Turn) (s : Shell) → Flow s → Flow (run ts s)
  unfolding run
  run-Flow [] s f = f
  run-Flow (t ∷ ts) s f = run-Flow ts (step t s) (step-Flow t s f)

-- Whatever the client sends, however its stream and the writes to the device behave, and in whatever
-- order the goroutines and the loop run: of a device that sends packets of output, shorter than 2 ^ 32
-- bytes, the client has got the first ones, each as one response on its channel, in order, none left
-- out and none twice, and no other response.
pub output_in_order :
    (ts : List Turn) (ps : List (ℕ × Bytes)) (c : Conn) (p : Stream ShellRequest ShellResponse)
    → All IsOutput ps
    → (taken : List (ℕ × Bytes)) × (rest : List (ℕ × Bytes)) × (ps ≡ taken ++ rest)
      × ((run ts (opened (arriving (wires ps) c) p)).peer.outgoing ≡ p.outgoing ++ map shown taken)
output_in_order ts ps c p h =
    let f = run-Flow p.outgoing ps h ts (opened (arriving (wires ps) c) p) begins in
    (f.taken, f.rest, f.split, f.shows)
  where
    begins : Flow p.outgoing ps h (opened (arriving (wires ps) c) p)
    begins =
        unfold opened in
        record {
          taken = [];
          rest = ps;
          split = refl;
          shows = sym (append-nil p.outgoing);
          going = λ v h. refl;
        }
