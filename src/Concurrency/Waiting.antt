-- ===== src/Concurrency/Waiting.antt =====
-- internal/concurrency/wait.go and do.go, and `SignalWhen` of signal.go: waits that something else can
-- end, a timer or a condition.
--
-- A `select` takes any one of its cases that is ready: the case is an argument. Time is what is said of a
-- timer: whether it had fired.
use go_grpc_http.Common.{
  ℕ, zero, suc, Bool, Bool-cases, true, false, not, Option, none, some, if◌then◌else◌, ◌≡◌, inl,
  inr, refl, sym, ap, ◌∙◌, arith, Option-cases,
}
use go_grpc_http.Concurrency.Signal.{Signal, signal, is_done, wait_c, chan_done, IsSignal}
use go_grpc_http.Concurrency.Signal.Calls.{Keeps, signal_lem}

-- A `time.Duration`, in nanoseconds.
pub data Duration : Type 0 where
  pos negsuc : ℕ → Duration

-- `timeout <= 0`
unfoldable pub is_over : Duration → Bool
is_over (pos zero) = true
is_over (pos (suc n)) = false
is_over (negsuc n) = true

-- The cases of the `select` in `WaitWithTimeout`.
pub data Case : Type 0 where
  condition timer : Case

-- A case is ready, with the condition's channel closed or not, and the timer fired or not.
abbrev pub is_ready : Bool → Bool → Case → Bool
is_ready done fired condition = done
is_ready done fired timer = fired

-- A receive from a timer's channel: it holds a value if the timer has fired, and else, once stopped, it
-- never will. `none` blocks for ever.
abbrev pub receive : Bool → Option Bool
receive true = some true
receive false = none

-- `if !t.Stop()`, with the timer fired by then or not.
abbrev pub stopped : Bool → Option Bool
stopped fired = let stop = not fired in if not stop then receive fired else some true

-- The case that is taken; `fired` is what the timer has done where it is stopped.
abbrev pub waited : Bool → Case → Option Bool
waited fired condition = stopped fired
waited fired timer = some false

-- `WaitWithTimeout`.
unfoldable pub wait_with_timeout : Duration → Bool → Case → Bool → Option Bool
unfolding is_over
wait_with_timeout timeout done c fired = if is_over timeout then some done else waited fired c

-- `DoWithTimeout`, with the action as what it does to a state.
abbrev pub ended : {State : Type 0} → (State → State) → State → Option Bool → Option (State × Bool)
ended action s none = none
ended action s (some true) = some (action s, true)
ended action s (some false) = some (s, false)

unfoldable pub do_with_timeout :
    {State : Type 0}
    → (State → State)
    → State
    → Duration
    → Bool
    → Case
    → Bool
    → Option (State × Bool)
unfolding wait_with_timeout
do_with_timeout action s timeout done c fired =
    ended action s (wait_with_timeout timeout done c fired)

-- The cases of the `select` in `SignalWhen`.
pub data SignalCase : Type 0 where
  trigger_done cancel_done signal_done : SignalCase

abbrev pub is_signal_ready : Bool → Bool → Signal → SignalCase → Bool
is_signal_ready trigger cancel s trigger_done = trigger
is_signal_ready trigger cancel s cancel_done = cancel
is_signal_ready trigger cancel s signal_done = chan_done s (wait_c s)

-- `SignalWhen`, from the `select` on; `none` is a panic.
unfoldable pub signal_when : Signal → SignalCase → Option (Signal × Bool)
signal_when s trigger_done = signal s
signal_when s cancel_done = some (s, false)
signal_when s signal_done = some (s, false)

-- The outcome of a wait for `done`, with a timer that had fired at the `select` or not.
pub data Waited (timeout : Duration) (done fired : Bool) : Bool → Type 0 where
  satisfied : done ≡ true → Waited timeout done fired true
  polled : is_over timeout ≡ true → done ≡ false → Waited timeout done fired false
  timed_out : is_over timeout ≡ false → fired ≡ true → Waited timeout done fired false

stopped_lem : (fired : Bool) → stopped fired ≡ some true
stopped_lem true = refl
stopped_lem false = refl

polled_Waited :
    (timeout : Duration) (done fired : Bool)
    → is_over timeout ≡ true
    → Waited timeout done fired done
polled_Waited timeout true fired e = satisfied refl
polled_Waited timeout false fired e = polled e refl

waited-Waited :
    (timeout : Duration) (done fired : Bool) (c : Case) (later : Bool)
    → is_over timeout ≡ false
    → is_ready done fired c ≡ true
    → (b : Bool) × (waited later c ≡ some b) × Waited timeout done fired b
waited-Waited timeout done fired condition later e h = (true, stopped_lem later, satisfied h)
waited-Waited timeout done fired timer later e h = (false, refl, timed_out e h)

wait_with_timeout-Waited :
    (timeout : Duration) (done fired : Bool) (c : Case) (later : Bool)
    → (is_over timeout ≡ false → is_ready done fired c ≡ true)
    → (b : Bool) × (wait_with_timeout timeout done c later ≡ some b) × Waited timeout done fired b
unfolding wait_with_timeout
wait_with_timeout-Waited timeout done fired c later ready = elim (Bool-cases (is_over timeout)) [
  | inl e ↦ (
    done,
    ap (λ t. if t then some done else waited later c) e,
    polled_Waited timeout done fired e,
  )
  | inr e ↦
      let (b, same, w) = waited-Waited timeout done fired c later e (ready e) in
      (b, ap (λ t. if t then some done else waited later c) e ∙ same, w)
]

ended_lem :
    {State : Type 0} (action : State → State) (s : State) (b : Bool)
    → ended action s (some b) ≡ some (if b then action s else s, b)
ended_lem action s true = refl
ended_lem action s false = refl

-- `DoWithTimeout` with a positive timeout takes a case of its `select` that is ready; with another one it
-- only looks at the condition. Then it returns, without a block on the timer's channel, whenever the timer
-- fires, and has run the action once if it returns true, and not at all if it returns false. It returns
-- true only if the condition holds, and false only after the timer has fired, or where the timeout is not
-- positive and the condition does not hold.
pub do_with_timeout-Waited :
    {State : Type 0} (action : State → State) (s : State) (timeout : Duration) (done fired : Bool)
    (c : Case) (later : Bool)
    → (is_over timeout ≡ false → is_ready done fired c ≡ true)
    → (b : Bool) × (do_with_timeout action s timeout done c later
        ≡ some (if b then action s else s, b))
      × Waited timeout done fired b
unfolding do_with_timeout
do_with_timeout-Waited action s timeout done fired c later ready =
    let (b, e, w) = wait_with_timeout-Waited timeout done fired c later ready in
    (b, ap (ended action s) e ∙ ended_lem action s b, w)

flip_back : (b : Bool) → not b ≡ true → b ≡ false
flip_back true h = sym h
flip_back false h = refl

-- The current channel is open, so a signal whose channel is closed has none.
done_signal : (s : Signal) → IsSignal s → chan_done s (wait_c s) ≡ true → is_done s ≡ true
unfolding is_done wait_c chan_done
done_signal s v h = elim (Option-cases s.ch) [
  | inl e ↦ ground arith
  | inr (c, e) ↦ ground (arith, v.current_open c)
]

-- `SignalWhen` on a signal whose current channel and whose future channels are open takes a case of its
-- `select` that is ready, and no other goroutine uses the signal meanwhile. Then it does not panic. It
-- returns true only if the trigger condition holds and the signal was untriggered, it leaves the signal
-- triggered if the cancel condition does not hold, and well-formed, and takes no snapshot back.
pub signal_when_lem :
    (s : Signal) (trigger cancel : Bool) (c : SignalCase)
    → IsSignal s
    → is_signal_ready trigger cancel s c ≡ true
    → (t : Signal) × (b : Bool) × (signal_when s c ≡ some (t, b))
      × (b ≡ true → (trigger ≡ true) × (is_done s ≡ false))
      × (cancel ≡ false → is_done t ≡ true)
      × IsSignal t
      × Keeps s t
unfolding signal_when Keeps
signal_when_lem s trigger cancel trigger_done v h =
    let (t, e, d, _, w, k) = signal_lem s v in
    (t, not (is_done s), e, λ b. (h, flip_back (is_done s) b), λ x. d, w, k)
signal_when_lem s trigger cancel cancel_done v h = (s, false, refl, λ b. cc, λ x. cc, v, λ w k. k)
signal_when_lem s trigger cancel signal_done v h =
    (s, false, refl, λ b. cc, λ x. done_signal s v h, v, λ w k. k)
