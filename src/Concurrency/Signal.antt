-- ===== src/Concurrency/Signal.antt =====
-- internal/concurrency/signal.go, and `IsDone` of wait.go. A channel is a number; what Go keeps of it is
-- whether it is closed. `ch` is the pointer that the code loads, swaps and compares atomically.
pub mod Interleaved
pub mod Calls
use go_grpc_http.Common.{
  ℕ, zero, suc, ◌+◌, ◌<◌, ◌≤◌, Bool, true, false, Option, none, some, ◌==◌, if◌then◌else◌, ◌≡◌,
  refl, arith,
}
use mathlib.Core.Option

pub record Signal : Type 0 where
  pub ch : Option ℕ
  pub closed : ℕ → Bool
  -- The number of the next channel that is made.
  pub next : ℕ

-- A value of `WaitableChan`: `closedCh`, or a channel of the signal.
pub data WaitableChan : Type 0 where
  closed_ch : WaitableChan
  chan : ℕ → WaitableChan

-- A receive from the channel would not block: `IsDone` of wait.go.
unfoldable pub chan_done : Signal → WaitableChan → Bool
chan_done s closed_ch = true
chan_done s (chan c) = s.closed c

abbrev pub update : (ℕ → Bool) → ℕ → ℕ → Bool
update f c d = if c == d then true else f d

-- `close(*ch)`; `none` is the panic on a channel that is closed.
unfoldable pub close_chan : ℕ → Signal → Option Signal
close_chan c s = if s.closed c then none else some (record s { closed = update s.closed c })

-- `Reset`. The channel is made in any case, and is dropped where the signal has one.
unfoldable pub reset : Signal → Signal × Bool
reset s = elim s.ch [
  | none ↦ (record s { ch = some s.next; next = s.next + 1 }, true)
  | some c ↦ (record s { next = s.next + 1 }, false)
]

abbrev pub zero_value : Signal
zero_value = record { ch = none; closed = λ c. false; next = 0 }

-- `NewSignal`.
unfoldable pub new_signal : Signal
unfolding reset
new_signal = (reset zero_value).0

-- The two halves of `Signal`: the swap, and the close of what was swapped out.
unfoldable pub swap_out : Signal → Signal × Option ℕ
swap_out s = (record s { ch = none }, s.ch)

-- The method `Signal`, run without interruption.
unfoldable pub signal : Signal → Option (Signal × Bool)
unfolding swap_out close_chan
signal s =
    let (s', old) = swap_out s in
    elim old [ none ↦ some (s', false) | some c ↦ Option.map (λ t. (t, true)) (close_chan c s') ]

-- The method `IsDone`.
unfoldable pub is_done : Signal → Bool
is_done s = elim s.ch [ none ↦ true | some c ↦ s.closed c ]

-- `WaitC`, which `Done` and `Snapshot` return.
unfoldable pub wait_c : Signal → WaitableChan
wait_c s = elim s.ch [ none ↦ closed_ch | some c ↦ chan c ]

-- The current channel is open, and channels that are not made yet are.
pub record IsSignal (s : Signal) : Type 0 where
  pub current_open : (c : ℕ) → s.ch ≡ some c → (s.closed c ≡ false) × (c < s.next)
  pub future_open : (c : ℕ) → s.next ≤ c → s.closed c ≡ false
