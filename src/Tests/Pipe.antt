-- ===== src/Tests/Pipe.antt =====
-- A run of internal/pipeconn/pipe_listener.go: a connection, and a listener that is closed under an
-- `Accept`.
use go_grpc_http.Common.{ℕ, true, ◌≤◌, none, [], ◌∷◌, ◌≡◌, ◌⊎◌, refl, All}
use go_grpc_http.Concurrency.Signal.{close_chan, new_signal, swap_out, is_done, wait_c, update}
use go_grpc_http.Pipeconn.{
  checked, selecting, PipeListener, new_pipe_listener, accept_called, dial_called, close_called,
  handed_over, accepts, accept_selects, dials, dial_selects, connects, closes, close_returns, Reach,
  begun, stepped,
}
use go_grpc_http.Pipeconn.Pairing.{count, returned_pipes, successes}
use go_grpc_http.Pipeconn.Unblocked.{Ready, Closable, Reach-Ready}

abbrev called : PipeListener
called = dial_called (accept_called (accept_called new_pipe_listener))

abbrev first_selects : PipeListener
first_selects = record called { accepting = checked ∷ selecting (wait_c called.closed) ∷ [] }

abbrev both_select : PipeListener
both_select = record first_selects {
  accepting = selecting (wait_c called.closed) ∷ selecting (wait_c called.closed) ∷ [];
}

abbrev dial_too : PipeListener
dial_too = record both_select { dialing = (0, selecting (wait_c called.closed)) ∷ [] }

abbrev passed_over : PipeListener
passed_over = handed_over (selecting (wait_c called.closed) ∷ []) [] 0 dial_too

abbrev shutting : PipeListener
shutting = close_called passed_over

abbrev shut : PipeListener
shut = record shutting {
  closed = record shutting.closed { closed = update shutting.closed.closed 0 };
  closing = [];
  close_results = none ∷ shutting.close_results;
}

shut-Reach : Reach shut
unfolding new_pipe_listener accept_called dial_called close_called new_signal swap_out is_done
    close_chan
shut-Reach =
    let r3 = stepped (stepped (stepped begun accepts) accepts) dials in
    let r4 = stepped r3 (accept_selects (checked ∷ []) [] refl) in
    let r5 = stepped r4 (accept_selects [] (selecting (wait_c called.closed) ∷ []) refl) in
    let r6 = stepped r5 (dial_selects [] [] 0 refl) in
    let r7 = stepped r6 (
      connects [] (selecting (wait_c called.closed) ∷ []) [] [] 0 (wait_c called.closed)
        (wait_c called.closed) refl refl) in
    stepped (stepped r7 closes) (close_returns [] [] 0 shut.closed refl refl)

Reach-Ready_example :
    ((p : ℕ)
      → (count p (returned_pipes shut.accept_results) ≡ count p (returned_pipes shut.dial_results))
        × (count p (returned_pipes shut.dial_results) ≤ 1))
    × (successes shut.close_results ≤ 1)
    × All (Closable shut.closed) shut.closing
    × ((successes shut.close_results ≡ 0)
        ⊎ (is_done shut.closed ≡ true)
          × All (Ready shut.closed) shut.accepting
          × All (λ d. Ready shut.closed d.1) shut.dialing)
Reach-Ready_example = Reach-Ready shut-Reach
