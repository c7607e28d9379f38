-- ===== src/Pipeconn/Pairing.antt =====
-- The connections of a pipe listener, and how often it is closed.
use go_grpc_http.Common.{
  ℕ, ◌+◌, ◌≤◌, ◌==◌, Option, none, some, List, [], ◌∷◌, ◌++◌, if◌then◌else◌, length, ◌≡◌, refl, ap,
  ◌∙◌, arith, Bool-cases, ==_iff, inl, inr, Option-cases,
}
use go_grpc_http.Errors.{Error, Result, ok, err, panic}
use go_grpc_http.Concurrency.Signal.{Signal, close_chan, new_signal, is_done, wait_c}
use go_grpc_http.Pipeconn.{
  Waiting, checked, selecting, PipeListener, new_pipe_listener, accept_called, dial_called,
  close_called, Step, accepts, accept_selects, dials, dial_selects, connects, accept_refused,
  dial_refused, dial_cancelled, closes, close_returns, Reach, begun, stepped,
}

-- How often a pipe stands in a list.
abbrev pub count : ℕ → List ℕ → ℕ
count p [] = 0
count p (q ∷ qs) = (if p == q then 1 else 0) + count p qs

-- The pipes of calls, and of results.
abbrev pub waiting_pipes : List (ℕ × Waiting) → List ℕ
waiting_pipes [] = []
waiting_pipes ((p, w) ∷ ds) = p ∷ waiting_pipes ds

abbrev pub returned_pipes : List (Result ℕ) → List ℕ
returned_pipes [] = []
returned_pipes (ok p ∷ rs) = p ∷ returned_pipes rs
returned_pipes (err e ∷ rs) = returned_pipes rs
returned_pipes (panic ∷ rs) = returned_pipes rs

-- The calls of `Close` that returned no error.
abbrev pub successes : List (Option Error) → ℕ
successes [] = 0
successes (none ∷ rs) = 1 + successes rs
successes (some e ∷ rs) = successes rs

abbrev pub open_channels : Option ℕ → ℕ
open_channels none = 0
open_channels (some c) = 1

pub count_middle :
    (k p : ℕ) (w : Waiting) (us vs : List (ℕ × Waiting))
    → count k (waiting_pipes (us ++ (p, w) ∷ vs))
      ≡ (if k == p then 1 else 0) + count k (waiting_pipes (us ++ vs))
count_middle k p w [] vs = refl
count_middle k p w ((q, x) ∷ us) vs = omega (arith, count_middle k p w us vs)

pub length_middle : (c : ℕ) (cs ds : List ℕ) → length (cs ++ c ∷ ds) ≡ 1 + length (cs ++ ds)
length_middle c [] ds = omega arith
length_middle c (d ∷ cs) ds = omega (arith, length_middle c cs ds)

-- Pipe by pipe: accepted as often as dialed, at most once in all, and not before it is made.
pub record IsPaired (l : PipeListener) (k : ℕ) : Type 0 where
  pub same : count k (returned_pipes l.accept_results) ≡ count k (returned_pipes l.dial_results)
  pub once : count k (waiting_pipes l.dialing) + count k (returned_pipes l.dial_results) ≤ 1
  pub later :
      l.next_pipe ≤ k
      → count k (waiting_pipes l.dialing) + count k (returned_pipes l.dial_results) ≡ 0

pub record IsClosing (l : PipeListener) : Type 0 where
  pub one : open_channels l.closed.ch + length l.closing + successes l.close_results ≡ 1

made :
    (l : PipeListener) (k : ℕ)
    → IsPaired l k
    → IsPaired
        (record l { dialing = (l.next_pipe, checked) ∷ l.dialing; next_pipe = l.next_pipe + 1 })
        k
made l k h = record {
  same = h.same;
  once = elim (Bool-cases (k == l.next_pipe)) [
    | inl e ↦ rw e (omega (arith, h.later (omega (arith, (==_iff k l.next_pipe).0 e))))
    | inr e ↦ rw e (omega (arith, h.once))
  ];
  later = λ le. elim (Bool-cases (k == l.next_pipe)) [
    | inl e ↦ absurd (omega (arith, (==_iff k l.next_pipe).0 e))
    | inr e ↦ rw e (omega (arith, h.later (omega arith)))
  ];
}

pub Step-IsPaired : {l l' : PipeListener} (k : ℕ) → Step l l' → IsPaired l k → IsPaired l' k
unfolding accept_called dial_called close_called
Step-IsPaired {l} k accepts h = elim (Bool-cases (is_done l.closed)) [
  | inl e ↦ rw e (record { same = h.same; once = h.once; later = h.later })
  | inr e ↦ rw e (record { same = h.same; once = h.once; later = h.later })
]
Step-IsPaired {l} k (accept_selects xs ys e) h = record {
  same = h.same;
  once = h.once;
  later = h.later;
}
Step-IsPaired {l} k dials h = elim (Bool-cases (is_done l.closed)) [
  | inl e ↦ rw e (record { same = h.same; once = h.once; later = h.later })
  | inr e ↦ rw e (made l k h)
]
Step-IsPaired {l} k (dial_selects us vs p e) h =
    let one = ap (λ ds. count k (waiting_pipes ds)) e ∙ count_middle k p checked us vs in
    let two = count_middle k p (selecting (wait_c l.closed)) us vs in
    record {
      same = h.same;
      once = omega (arith, one, two, h.once);
      later = λ le. omega (arith, one, two, h.later le);
    }
Step-IsPaired {l} k (connects xs ys us vs p c d e f) h =
    let one = ap (λ ds. count k (waiting_pipes ds)) f ∙ count_middle k p (selecting d) us vs in
    record {
      same = ap ((if k == p then 1 else 0) +◌) h.same;
      once = omega (arith, one, h.once);
      later = λ le. omega (arith, one, h.later le);
    }
Step-IsPaired {l} k (accept_refused xs ys c e f) h = record {
  same = h.same;
  once = h.once;
  later = h.later;
}
Step-IsPaired {l} k (dial_refused us vs p d e f) h =
    let one = ap (λ ds. count k (waiting_pipes ds)) e ∙ count_middle k p (selecting d) us vs in
    record {
      same = h.same;
      once = omega (arith, one, h.once);
      later = λ le. omega (arith, one, h.later le);
    }
Step-IsPaired {l} k (dial_cancelled us vs p d x e) h =
    let one = ap (λ ds. count k (waiting_pipes ds)) e ∙ count_middle k p (selecting d) us vs in
    record {
      same = h.same;
      once = omega (arith, one, h.once);
      later = λ le. omega (arith, one, h.later le);
    }
Step-IsPaired {l} k closes h = elim (Option-cases l.closed.ch) [
  | inl e ↦ rw e (record { same = h.same; once = h.once; later = h.later })
  | inr (c, e) ↦ rw e (record { same = h.same; once = h.once; later = h.later })
]
Step-IsPaired {l} k (close_returns cs ds c s e f) h = record {
  same = h.same;
  once = h.once;
  later = h.later;
}

pub close_chan_keeps : (c : ℕ) (s s' : Signal) → close_chan c s ≡ some s' → s'.ch ≡ s.ch
unfolding close_chan
close_chan_keeps c s s' e = elim (Bool-cases (s.closed c)) [
  | inl f ↦ ground (arith)
  | inr f ↦ ground (arith)
]

Step-IsClosing : {l l' : PipeListener} → Step l l' → IsClosing l → IsClosing l'
unfolding accept_called dial_called close_called close_chan
Step-IsClosing {l} accepts h = elim (Bool-cases (is_done l.closed)) [
  | inl e ↦ rw e (record { one = h.one })
  | inr e ↦ rw e (record { one = h.one })
]
Step-IsClosing (accept_selects xs ys e) h = record { one = h.one }
Step-IsClosing {l} dials h = elim (Bool-cases (is_done l.closed)) [
  | inl e ↦ rw e (record { one = h.one })
  | inr e ↦ rw e (record { one = h.one })
]
Step-IsClosing (dial_selects us vs p e) h = record { one = h.one }
Step-IsClosing (connects xs ys us vs p c d e f) h = record { one = h.one }
Step-IsClosing (accept_refused xs ys c e f) h = record { one = h.one }
Step-IsClosing (dial_refused us vs p d e f) h = record { one = h.one }
Step-IsClosing (dial_cancelled us vs p d x e) h = record { one = h.one }
Step-IsClosing {l} closes h = elim (Option-cases l.closed.ch) [
  | inl e ↦ rw e (record { one = omega (arith, ap open_channels e, h.one) })
  | inr (c, e) ↦ rw e (record { one = omega (arith, ap open_channels e, h.one) })
]
Step-IsClosing {l} (close_returns cs ds c s e f) h = record {
  one = omega (
    arith,
    ap open_channels (close_chan_keeps c l.closed s f),
    ap length e,
    length_middle c cs ds,
    h.one,
  );
}

pub Reach-IsPaired : {l : PipeListener} (k : ℕ) → Reach l → IsPaired l k
unfolding new_pipe_listener
Reach-IsPaired k begun = record { same = refl; once = omega arith; later = λ le. refl }
Reach-IsPaired k (stepped r s) = Step-IsPaired k s (Reach-IsPaired k r)

pub Reach-IsClosing : {l : PipeListener} → Reach l → IsClosing l
unfolding new_pipe_listener new_signal
Reach-IsClosing begun = record { one = refl }
Reach-IsClosing (stepped r s) = Step-IsClosing s (Reach-IsClosing r)
