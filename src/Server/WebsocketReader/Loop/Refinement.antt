-- ===== src/Server/WebsocketReader/Loop/Refinement.antt =====
-- Each step of the loop and of `Read` keeps what the sequential `read` says.
use go_grpc_http.Common.{
  ℕ, Option, none, some, List, [], ◌∷◌, ◌++◌, Bytes, codes, ◌≡◌, refl, sym, ap, ◌∙◌, subst,
  append-nil,
}
use go_grpc_http.Errors.{Error, wrapped}
use go_grpc_http.Server.WebsocketReader.{
  Incoming, WsReader, Arrival, result, cancelled, returns, check_message, copy_out,
}
use go_grpc_http.Server.WebsocketReader.Loop.{
  in_reader, offering, World, reader_of, Step, takes_barrier, gets, stops_waiting, stops_offering,
  reads_sticky, reads_current, selects, read_cancelled, gets_error, gets_reader, read_broken,
  releases, checks, cancels, Reach, begun, stepped,
}
use go_grpc_http.Server.WebsocketReader.Loop.Sequential.{
  reader_on, Reads, no_call, one_more, received, with_arrivals, retarget, message_checked-retarget,
  read_sticky, read_current, arrived_cancelled, arrived_error, arrived_message, on_message,
  none_idle, none_selecting, in_buffer, in_check, Ahead, barrier_ahead, reader_ahead, offer_ahead,
  dropped, IsSequential, consumes, idle-Pending, selecting-Pending, buffer-Pending, check-Pending,
  offer_rest, waiting_rest, reading_rest, order_taken,
}

copied :
    (size : ℕ) (s : WsReader) (more : List Arrival) {u : WsReader} {out : Bytes} {e : Option Error}
    → copy_out size s ≡ returns u out e
    → copy_out size (with_arrivals more s) ≡ returns (with_arrivals more u) out e
unfolding copy_out
copied size s more o = ap (retarget more) o

Step-IsSequential :
    {incoming : List Incoming} {v w : World}
    → Step v w
    → IsSequential incoming v
    → IsSequential incoming w
Step-IsSequential {incoming} {v} (takes_barrier l n b) h = record {
  log = h.log;
  pend = h.pend;
  rest = h.rest;
  replay = h.replay;
  pending = h.pending;
  ahead = subst (Ahead in_reader v.incoming) (sym (waiting_rest h.ahead l)) reader_ahead;
  order = h.order;
  quiet = h.quiet;
}
Step-IsSequential {incoming} {v} (gets l i is e) h = record {
  log = h.log;
  pend = h.pend;
  rest = h.rest;
  replay = h.replay;
  pending = h.pending;
  ahead = subst (Ahead (offering i) is) (sym (reading_rest h.ahead l ∙ e)) offer_ahead;
  order = h.order;
  quiet = h.quiet;
}
Step-IsSequential {incoming} {v} (stops_waiting l e c) h = record {
  log = h.log;
  pend = h.pend;
  rest = h.rest;
  replay = h.replay;
  pending = h.pending;
  ahead = dropped;
  order = h.order;
  quiet = h.quiet;
}
Step-IsSequential {incoming} {v} (stops_offering i l e c) h = record {
  log = h.log;
  pend = h.pend;
  rest = h.rest;
  replay = h.replay;
  pending = h.pending;
  ahead = dropped;
  order = h.order;
  quiet = h.quiet;
}
Step-IsSequential {incoming} {v} (reads_sticky size c e s) h = record {
  log = h.log;
  pend = [];
  rest = h.rest;
  replay =
      λ more. one_more size (h.replay more) (read_sticky size (with_arrivals more (reader_of v)) s);
  pending = none_idle;
  ahead = h.ahead;
  order = h.order ∙ ap (λ p. received h.log ++ (p ++ h.rest)) (idle-Pending h.pending c);
  quiet = λ x. absurd (x refl);
}
Step-IsSequential {incoming} {v} (reads_current size c n b bs m {s} {out} {e} o) h = record {
  log = h.log;
  pend = [];
  rest = h.rest;
  replay = λ more. one_more size (h.replay more) (
      read_current size (with_arrivals more (reader_of v)) b bs n m
      ∙ copied size (reader_of v) more o);
  pending = none_idle;
  ahead = h.ahead;
  order = h.order ∙ ap (λ p. received h.log ++ (p ++ h.rest)) (idle-Pending h.pending c);
  quiet = λ x. absurd (x refl);
}
Step-IsSequential {incoming} {v} (selects size c n m) h = record {
  log = h.log;
  pend = [];
  rest = h.rest;
  replay = h.replay;
  pending = none_selecting;
  ahead = h.ahead;
  order = h.order ∙ ap (λ p. received h.log ++ (p ++ h.rest)) (idle-Pending h.pending c);
  quiet = λ x. (n, m);
}
Step-IsSequential {incoming} {v} (read_cancelled size c e x) h =
    let (clean, empty) = h.quiet (λ y. cc) in
    let u : WsReader = record (reader_of v) {
      err = some (wrapped (codes "reading websocket message") e);
    } in
    record {
      log = h.log ++ cancelled e ∷ [];
      pend = [];
      rest = h.rest;
      replay =
          consumes h.log (reader_of v) u (cancelled e) size [] u.err h.replay clean empty
            (λ more. arrived_cancelled size (with_arrivals more (reader_of v)) e);
      pending = none_idle;
      ahead = h.ahead;
      order =
          order_taken incoming h.log (cancelled e) [] h.rest refl
            (h.order ∙ ap (λ p. received h.log ++ (p ++ h.rest)) (selecting-Pending h.pending c));
      quiet = λ y. absurd (y refl);
    }
Step-IsSequential {incoming} {v} (gets_error size c i l e f) h =
    let (clean, empty) = h.quiet (λ y. cc) in
    let u : WsReader = record (reader_of v) { err = some e } in
    record {
      log = h.log ++ result i ∷ [];
      pend = [];
      rest = v.incoming;
      replay =
          consumes h.log (reader_of v) u (result i) size [] u.err h.replay clean empty
            (λ more. arrived_error size (with_arrivals more (reader_of v)) i e f);
      pending = none_idle;
      ahead = barrier_ahead;
      order = order_taken incoming h.log (result i) (i ∷ []) v.incoming refl (
          h.order
          ∙ ap (λ p. received h.log ++ (p ++ h.rest)) (selecting-Pending h.pending c)
          ∙ ap (λ p. received h.log ++ p) (offer_rest h.ahead l));
      quiet = λ y. absurd (y refl);
    }
Step-IsSequential {incoming} {v} (gets_reader size c i l r f) h = record {
  log = h.log;
  pend = i ∷ [];
  rest = v.incoming;
  replay = h.replay;
  pending = in_buffer i f;
  ahead = barrier_ahead;
  order =
      h.order
      ∙ ap (λ p. received h.log ++ (p ++ h.rest)) (selecting-Pending h.pending c)
      ∙ ap (λ p. received h.log ++ p) (offer_rest h.ahead l);
  quiet = λ y. h.quiet (λ z. cc);
}
Step-IsSequential {incoming} {v} (read_broken size r c e x) h =
    let (clean, empty) = h.quiet (λ y. cc) in
    let (i, f, p) = buffer-Pending h.pending c in
    let u : WsReader = record (reader_of v) { err = some e } in
    record {
      log = h.log ++ result i ∷ [];
      pend = [];
      rest = h.rest;
      replay =
          consumes h.log (reader_of v) u (result i) size [] u.err h.replay clean empty
            (λ more. arrived_message size (with_arrivals more (reader_of v)) i r (some e) f x);
      pending = none_idle;
      ahead = h.ahead;
      order = order_taken incoming h.log (result i) h.pend h.rest (sym p) h.order;
      quiet = λ y. absurd (y refl);
    }
Step-IsSequential {incoming} {v} (releases size r c x b) h =
    let (i, f, p) = buffer-Pending h.pending c in
    record {
      log = h.log;
      pend = i ∷ [];
      rest = h.rest;
      replay = h.replay;
      pending = in_check i r f x refl;
      ahead = h.ahead;
      order = h.order ∙ ap (λ q. received h.log ++ (q ++ h.rest)) p;
      quiet = λ y. h.quiet (λ z. cc);
    }
Step-IsSequential {incoming} {v} (checks size msg c {s} {out} {e} o) h =
    let (clean, empty) = h.quiet (λ y. cc) in
    let (i, r, f, x, m, p) = check-Pending h.pending c in
    record {
      log = h.log ++ result i ∷ [];
      pend = [];
      rest = h.rest;
      replay = consumes h.log (reader_of v) s (result i) size out e h.replay clean empty (λ more.
          arrived_message size (with_arrivals more (reader_of v)) i r none f x
          ∙ ap (λ t. on_message size (with_arrivals more (reader_of v)) t none) (sym m)
          ∙ message_checked-retarget size (reader_of v) msg (check_message msg) more
          ∙ ap (retarget more) o);
      pending = none_idle;
      ahead = h.ahead;
      order = order_taken incoming h.log (result i) h.pend h.rest (sym p) h.order;
      quiet = λ y. absurd (y refl);
    }
Step-IsSequential {incoming} {v} (cancels e c) h = record {
  log = h.log;
  pend = h.pend;
  rest = h.rest;
  replay = h.replay;
  pending = h.pending;
  ahead = h.ahead;
  order = h.order;
  quiet = h.quiet;
}

Reach-IsSequential :
    {incoming : List Incoming} {w : World} → Reach incoming w → IsSequential incoming w
Reach-IsSequential {incoming} begun = record {
  log = [];
  pend = [];
  rest = incoming;
  replay = λ more. no_call;
  pending = none_idle;
  ahead = barrier_ahead;
  order = refl;
  quiet = λ x. absurd (x refl);
}
Reach-IsSequential (stepped r s) = Step-IsSequential s (Reach-IsSequential r)

-- However the loop, the calls of `Read` and the end of the context are interleaved: there are arrivals on
-- which calls of the sequential `read` of a new reader return the same, buffer by buffer, error by error,
-- and leave the same reader; and the results of the connection that are among them are the first ones
-- that it gave, in order, without a gap.
pub Reach-Reads :
    {incoming : List Incoming} {w : World}
    → Reach incoming w
    → (log : List Arrival) × (rest : List Incoming) × (incoming ≡ received log ++ rest)
      × Reads (reader_on log) w.results (reader_of w)
Reach-Reads {incoming} {w} r =
    let h = Reach-IsSequential r in
    (
      h.log,
      h.pend ++ h.rest,
      h.order,
      subst (λ as'. Reads (reader_on as') w.results (reader_of w)) (append-nil h.log) (h.replay []),
    )
