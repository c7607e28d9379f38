-- ===== src/Pipeconn/Unblocked.antt =====
-- A pipe listener that is closed: no call stays behind.
use go_grpc_http.Common.{
  ℕ, ◌+◌, ◌≤◌, true, false, Option, none, some, List, [], ◌∷◌, ◌++◌, length, ◌≡◌, ◌≢◌, refl, sym,
  ap, ◌∙◌, arith, Bool-cases, inl, inr, ◌⊎◌, subst, Option-cases, All,
}
use go_grpc_http.Concurrency.Signal.{
  Signal, closed_ch, chan, chan_done, close_chan, new_signal, is_done, wait_c,
}
use go_grpc_http.Pipeconn.{
  Waiting, checked, selecting, PipeListener, new_pipe_listener, accept_called, dial_called,
  close_called, Step, accepts, accept_selects, dials, dial_selects, connects, accept_refused,
  dial_refused, dial_cancelled, closes, close_returns, Reach, begun, stepped,
}
use go_grpc_http.Pipeconn.Pairing.{
  count, returned_pipes, successes, open_channels, Reach-IsPaired, Reach-IsClosing,
}

-- The signal of a listener makes one channel, the first.
abbrev IsFirst : ℕ → Type 0
IsFirst c = c ≡ 0

abbrev HasFirst : Waiting → Type 0
HasFirst checked = Unit
HasFirst (selecting closed_ch) = Unit
HasFirst (selecting (chan c)) = IsFirst c

record IsAware (l : PipeListener) : Type 0 where
  pub current : (c : ℕ) → l.closed.ch ≡ some c → IsFirst c
  pub swapped : All IsFirst l.closing
  pub accepting : All HasFirst l.accepting
  pub dialing : All (λ d. HasFirst d.1) l.dialing
  pub told :
      (successes l.close_results ≡ 0) × (l.closed.closed 0 ≡ false)
      ⊎ (1 ≤ successes l.close_results) × (l.closed.closed 0 ≡ true)

-- Without the call in the middle, and that call.
All-middle {κ} :
    {A : Type 0} (P : A → Type κ) (xs : List A) (y : A) (ys : List A)
    → All P (xs ++ y ∷ ys)
    → P y × All P (xs ++ ys)
All-middle P [] y ys h = h
All-middle P (x ∷ xs) y ys h = let (p, rest) = All-middle P xs y ys h.1 in (p, (h.0, rest))

All-put {κ} :
    {A : Type 0} (P : A → Type κ) (xs : List A) (y : A) (ys : List A)
    → P y
    → All P (xs ++ ys)
    → All P (xs ++ y ∷ ys)
All-put P [] y ys p h = (p, h)
All-put P (x ∷ xs) y ys p h = (h.0, All-put P xs y ys p h.1)

wait_c-HasFirst :
    (s : Signal) → ((c : ℕ) → s.ch ≡ some c → IsFirst c) → HasFirst (selecting (wait_c s))
unfolding wait_c
wait_c-HasFirst s h = elim (Option-cases s.ch) [
  | inl e ↦
      subst (λ o. HasFirst (selecting (elim o [ none ↦ closed_ch | some c ↦ chan c ]))) (sym e) tt
  | inr (c, e) ↦
      subst (λ o. HasFirst (selecting (elim o [ none ↦ closed_ch | some d ↦ chan d ]))) (sym e)
        (h c e)
]

without :
    {A : Type 0} (P : A → Type 0) (xs : List A) (y : A) (ys zs : List A)
    → zs ≡ xs ++ y ∷ ys
    → All P zs
    → All P (xs ++ ys)
without P xs y ys zs e h = (All-middle P xs y ys (subst (All P) e h)).1

closed_now :
    (c : ℕ) (s s' : Signal) → close_chan c s ≡ some s' → (s'.ch ≡ s.ch) × (s'.closed c ≡ true)
unfolding close_chan
closed_now c s s' e = elim (Bool-cases (s.closed c)) [ inl f ↦ ground arith | inr f ↦ ground arith ]

Step-IsAware : {l l' : PipeListener} → Step l l' → IsAware l → IsAware l'
unfolding accept_called dial_called close_called
Step-IsAware {l} accepts h = elim (Bool-cases (is_done l.closed)) [
  | inl e ↦ rw e (record {
    current = h.current;
    swapped = h.swapped;
    accepting = h.accepting;
    dialing = h.dialing;
    told = h.told;
  })
  | inr e ↦ rw e (record {
    current = h.current;
    swapped = h.swapped;
    accepting = (tt, h.accepting);
    dialing = h.dialing;
    told = h.told;
  })
]
Step-IsAware {l} (accept_selects xs ys e) h = record {
  current = h.current;
  swapped = h.swapped;
  accepting =
      All-put HasFirst xs (selecting (wait_c l.closed)) ys (wait_c-HasFirst l.closed h.current)
        (without HasFirst xs checked ys l.accepting e h.accepting);
  dialing = h.dialing;
  told = h.told;
}
Step-IsAware {l} dials h = elim (Bool-cases (is_done l.closed)) [
  | inl e ↦ rw e (record {
    current = h.current;
    swapped = h.swapped;
    accepting = h.accepting;
    dialing = h.dialing;
    told = h.told;
  })
  | inr e ↦ rw e (record {
    current = h.current;
    swapped = h.swapped;
    accepting = h.accepting;
    dialing = (tt, h.dialing);
    told = h.told;
  })
]
Step-IsAware {l} (dial_selects us vs p e) h = record {
  current = h.current;
  swapped = h.swapped;
  accepting = h.accepting;
  dialing =
      All-put (λ d. HasFirst d.1) us (p, selecting (wait_c l.closed)) vs
        (wait_c-HasFirst l.closed h.current)
        (without (λ d. HasFirst d.1) us (p, checked) vs l.dialing e h.dialing);
  told = h.told;
}
Step-IsAware {l} (connects xs ys us vs p c d e f) h = record {
  current = h.current;
  swapped = h.swapped;
  accepting = without HasFirst xs (selecting c) ys l.accepting e h.accepting;
  dialing = without (λ d. HasFirst d.1) us (p, selecting d) vs l.dialing f h.dialing;
  told = h.told;
}
Step-IsAware {l} (accept_refused xs ys c e f) h = record {
  current = h.current;
  swapped = h.swapped;
  accepting = without HasFirst xs (selecting c) ys l.accepting e h.accepting;
  dialing = h.dialing;
  told = h.told;
}
Step-IsAware {l} (dial_refused us vs p d e f) h = record {
  current = h.current;
  swapped = h.swapped;
  accepting = h.accepting;
  dialing = without (λ d. HasFirst d.1) us (p, selecting d) vs l.dialing e h.dialing;
  told = h.told;
}
Step-IsAware {l} (dial_cancelled us vs p d x e) h = record {
  current = h.current;
  swapped = h.swapped;
  accepting = h.accepting;
  dialing = without (λ d. HasFirst d.1) us (p, selecting d) vs l.dialing e h.dialing;
  told = h.told;
}
Step-IsAware {l} closes h = elim (Option-cases l.closed.ch) [
  | inl e ↦ rw e (record {
    current = λ c f. cc;
    swapped = h.swapped;
    accepting = h.accepting;
    dialing = h.dialing;
    told = h.told;
  })
  | inr (c, e) ↦ rw e (record {
    current = λ d f. cc;
    swapped = (h.current c e, h.swapped);
    accepting = h.accepting;
    dialing = h.dialing;
    told = h.told;
  })
]
Step-IsAware {l} (close_returns cs ds c s e f) h =
    let (first, rest) = All-middle IsFirst cs c ds (subst (All IsFirst) e h.swapped) in
    let (same, shut) = closed_now c l.closed s f in
    record {
      current = λ d g. h.current d (sym same ∙ g);
      swapped = rest;
      accepting = h.accepting;
      dialing = h.dialing;
      told = inr (omega arith, ap s.closed (sym first) ∙ shut);
    }

Reach-IsAware : {l : PipeListener} → Reach l → IsAware l
unfolding new_pipe_listener new_signal
Reach-IsAware begun = record {
  current = λ c e. ground arith;
  swapped = tt;
  accepting = tt;
  dialing = tt;
  told = inl (refl, refl);
}
Reach-IsAware (stepped r s) = Step-IsAware s (Reach-IsAware r)

-- In a call's `select`, the case of the closed listener is ready.
abbrev pub Ready : Signal → Waiting → Type 0
Ready s checked = Unit
Ready s (selecting c) = chan_done s c ≡ true

first_Ready : (s : Signal) (w : Waiting) → s.closed 0 ≡ true → HasFirst w → Ready s w
unfolding chan_done
first_Ready s checked e h = tt
first_Ready s (selecting closed_ch) e h = refl
first_Ready s (selecting (chan c)) e h = ap s.closed h ∙ e

accepts_Ready :
    (s : Signal) (ws : List Waiting) → s.closed 0 ≡ true → All HasFirst ws → All (Ready s) ws
accepts_Ready s [] e h = tt
accepts_Ready s (w ∷ ws) e h = (first_Ready s w e h.0, accepts_Ready s ws e h.1)

dials_Ready :
    (s : Signal) (ds : List (ℕ × Waiting))
    → s.closed 0 ≡ true
    → All (λ d. HasFirst d.1) ds
    → All (λ d. Ready s d.1) ds
dials_Ready s [] e h = tt
dials_Ready s ((p, w) ∷ ds) e h = (first_Ready s w e h.0, dials_Ready s ds e h.1)

none_open : (o : Option ℕ) → open_channels o ≡ 0 → o ≡ none
none_open none e = refl
none_open (some c) e = absurd (omega arith)

none_left : (cs : List ℕ) → length cs ≡ 0 → cs ≡ []
none_left [] e = refl
none_left (c ∷ cs) e = absurd (omega arith)

is_done-none : (s : Signal) → s.ch ≡ none → is_done s ≡ true
unfolding is_done
is_done-none s e = rw e refl

-- `close(*ch)` does not panic.
abbrev pub Closable : Signal → ℕ → Type 0
Closable s c = close_chan c s ≢ none

open_Closable :
    (s : Signal) (cs : List ℕ) → s.closed 0 ≡ false → All IsFirst cs → All (Closable s) cs
unfolding close_chan
open_Closable s [] e h = tt
open_Closable s (c ∷ cs) e h = ((λ n. cc (ap s.closed h.0 ∙ e, n)), open_Closable s cs e h.1)

closing_Closable :
    (l : PipeListener)
    → IsAware l
    → open_channels l.closed.ch + length l.closing + successes l.close_results ≡ 1
    → All (Closable l.closed) l.closing
closing_Closable l h one = elim h.told [
  | inl (z, e) ↦ open_Closable l.closed l.closing e h.swapped
  | inr (s, e) ↦ subst (All (Closable l.closed)) (sym (none_left l.closing (omega arith))) tt
]

-- However the calls of `Accept`, `DialContext` and `Close` of a new listener are interleaved: a pipe has
-- been returned by as many calls of `Accept` as of `DialContext`, and by at most one of each; `Close` has
-- returned no error at most once, and does not panic; and once it has, the signal is done, so a new call
-- returns at once, and every call that stands in its `select` can return that the listener is closed.
pub Reach-Ready :
    {l : PipeListener}
    → Reach l
    → ((p : ℕ)
        → (count p (returned_pipes l.accept_results) ≡ count p (returned_pipes l.dial_results))
          × (count p (returned_pipes l.dial_results) ≤ 1))
      × (successes l.close_results ≤ 1)
      × All (Closable l.closed) l.closing
      × ((successes l.close_results ≡ 0)
          ⊎ (is_done l.closed ≡ true)
            × All (Ready l.closed) l.accepting
            × All (λ d. Ready l.closed d.1) l.dialing)
Reach-Ready {l} r =
    let one = (Reach-IsClosing r).one in
    let h = Reach-IsAware r in
    (
      λ p. let paired = Reach-IsPaired p r in (paired.same, omega (arith, paired.once)),
      omega (arith, one),
      closing_Closable l h one,
      elim h.told [
        | inl (z, e) ↦ inl z
        | inr (s, e) ↦ inr (
          is_done-none l.closed (none_open l.closed.ch (omega (arith, one))),
          accepts_Ready l.closed l.accepting e h.accepting,
          dials_Ready l.closed l.dialing e h.dialing,
        )
      ],
    )
