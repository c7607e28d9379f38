-- ===== src/Pipeconn.antt =====
-- internal/pipeconn/pipe_listener.go: a listener whose connections are the two ends of a `net.Pipe()`.
--
-- The channel of connections has no buffer, so it keeps nothing: an `Accept` and a `DialContext` that
-- stand in their `select` meet. Beside the signal the state has the calls that have begun and the
-- results of those that returned; a pipe is a number. A step is one atomic action of one call.
pub mod Pairing
pub mod Unblocked
use go_grpc_http.Common.{
  ℕ, zero, suc, ◌+◌, Bool, true, false, Option, none, some, List, [], ◌∷◌, ◌++◌, if◌then◌else◌, ◌≡◌,
}
use go_grpc_http.Errors.{Error, listener_closed, already_closed, Result, ok, err, panic}
use go_grpc_http.Concurrency.Signal.{
  Signal, WaitableChan, chan_done, close_chan, new_signal, swap_out, is_done, wait_c,
}

-- How far a call is: behind its test of the signal, or in its `select` with the channel of `Done`.
pub data Waiting : Type 0 where
  checked : Waiting
  selecting : WaitableChan → Waiting

pub record PipeListener : Type 0 where
  pub closed : Signal
  pub accepting : List Waiting
  pub dialing : List (ℕ × Waiting)
  -- The channels that a call of `Close` has swapped out and not closed yet.
  pub closing : List ℕ
  pub next_pipe : ℕ
  pub accept_results : List (Result ℕ)
  pub dial_results : List (Result ℕ)
  pub close_results : List (Option Error)

-- `NewPipeListener`.
unfoldable pub new_pipe_listener : PipeListener
unfolding new_signal
new_pipe_listener = record {
  closed = new_signal;
  accepting = [];
  dialing = [];
  closing = [];
  next_pipe = 0;
  accept_results = [];
  dial_results = [];
  close_results = [];
}

abbrev pub accept_returns : List Waiting → Result ℕ → PipeListener → PipeListener
accept_returns waiting r l = record l { accepting = waiting; accept_results = r ∷ l.accept_results }

abbrev pub dial_returns : List (ℕ × Waiting) → Result ℕ → PipeListener → PipeListener
dial_returns waiting r l = record l { dialing = waiting; dial_results = r ∷ l.dial_results }

-- `Accept` up to its `select`.
unfoldable pub accept_called : PipeListener → PipeListener
unfolding is_done
accept_called l =
    if is_done l.closed
    then accept_returns l.accepting (err listener_closed) l
    else record l { accepting = checked ∷ l.accepting }

-- `DialContext` up to its `select`: it makes a pipe.
unfoldable pub dial_called : PipeListener → PipeListener
unfolding is_done
dial_called l =
    if is_done l.closed
    then dial_returns l.dialing (err listener_closed) l
    else record l { dialing = (l.next_pipe, checked) ∷ l.dialing; next_pipe = l.next_pipe + 1 }

-- `Close`, up to the close of the channel in `Signal`.
abbrev pub swapped_out : PipeListener → Signal × Option ℕ → PipeListener
swapped_out l (s, none) = record l {
  closed = s;
  close_results = some already_closed ∷ l.close_results;
}
swapped_out l (s, some c) = record l { closed = s; closing = c ∷ l.closing }

unfoldable pub close_called : PipeListener → PipeListener
unfolding swap_out
close_called l = swapped_out l (swap_out l.closed)

-- A connection is handed over: both calls return.
abbrev pub handed_over : List Waiting → List (ℕ × Waiting) → ℕ → PipeListener → PipeListener
handed_over accepting dialing p l = dial_returns dialing (ok p) (accept_returns accepting (ok p) l)

-- One atomic action. `xs` and `ys`, `us` and `vs` are the other calls.
pub data Step (l : PipeListener) : PipeListener → Type 0 where
  accepts : Step l (accept_called l)
  accept_selects :
      (xs ys : List Waiting)
      → l.accepting ≡ xs ++ checked ∷ ys
      → Step l (record l { accepting = xs ++ selecting (wait_c l.closed) ∷ ys })
  dials : Step l (dial_called l)
  dial_selects :
      (us vs : List (ℕ × Waiting)) (p : ℕ)
      → l.dialing ≡ us ++ (p, checked) ∷ vs
      → Step l (record l { dialing = us ++ (p, selecting (wait_c l.closed)) ∷ vs })
  connects :
      (xs ys : List Waiting) (us vs : List (ℕ × Waiting)) (p : ℕ) (c d : WaitableChan)
      → l.accepting ≡ xs ++ selecting c ∷ ys
      → l.dialing ≡ us ++ (p, selecting d) ∷ vs
      → Step l (handed_over (xs ++ ys) (us ++ vs) p l)
  accept_refused :
      (xs ys : List Waiting) (c : WaitableChan)
      → l.accepting ≡ xs ++ selecting c ∷ ys
      → chan_done l.closed c ≡ true
      → Step l (accept_returns (xs ++ ys) (err listener_closed) l)
  dial_refused :
      (us vs : List (ℕ × Waiting)) (p : ℕ) (d : WaitableChan)
      → l.dialing ≡ us ++ (p, selecting d) ∷ vs
      → chan_done l.closed d ≡ true
      → Step l (dial_returns (us ++ vs) (err listener_closed) l)
  -- The context of a `DialContext` ended, with this error.
  dial_cancelled :
      (us vs : List (ℕ × Waiting)) (p : ℕ) (d : WaitableChan) (e : Error)
      → l.dialing ≡ us ++ (p, selecting d) ∷ vs
      → Step l (dial_returns (us ++ vs) (err e) l)
  closes : Step l (close_called l)
  close_returns :
      (cs ds : List ℕ) (c : ℕ) (s : Signal)
      → l.closing ≡ cs ++ c ∷ ds
      → close_chan c l.closed ≡ some s
      → Step l (record l { closed = s; closing = cs ++ ds; close_results = none ∷ l.close_results })

-- What the calls can come to.
pub data Reach : PipeListener → Type 0 where
  begun : Reach new_pipe_listener
  stepped : {l l' : PipeListener} → Reach l → Step l l' → Reach l'
