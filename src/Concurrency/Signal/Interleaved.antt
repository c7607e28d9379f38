-- ===== src/Concurrency/Signal/Interleaved.antt =====
-- Goroutines that call `Signal` and `Reset` on one signal, interleaved between the atomic operations.
use go_grpc_http.Common.{
  ℕ, ◌+◌, ◌<◌, ◌≤◌, Bool, true, false, Option, none, some, ◌==◌, if◌then◌else◌, ◌≡◌,
}
use go_grpc_http.Concurrency.Signal.{Signal, reset, swap_out, close_chan, new_signal, update}

-- The signal, the channels that a call of `Signal` has swapped out and not closed yet, and how many
-- calls of `Reset` and of `Signal` have come to return true.
pub record World : Type 0 where
  pub signal : Signal
  pub swapped : ℕ → Bool
  pub resets : ℕ
  pub triggers : ℕ

abbrev forget : (ℕ → Bool) → ℕ → ℕ → Bool
forget f c d = if c == d then false else f d

-- One atomic step of some goroutine.
pub data Step (w : World) : World → Type 0 where
  did_reset :
      (reset w.signal).1 ≡ true
      → Step w (record w { signal = (reset w.signal).0; resets = w.resets + 1 })
  was_set : (reset w.signal).1 ≡ false → Step w (record w { signal = (reset w.signal).0 })
  did_swap :
      (c : ℕ)
      → (swap_out w.signal).1 ≡ some c
      → Step w (record w {
        signal = (swap_out w.signal).0;
        swapped = update w.swapped c;
        triggers = w.triggers + 1;
      })
  was_done : (swap_out w.signal).1 ≡ none → Step w (record w { signal = (swap_out w.signal).0 })
  did_close :
      (s : Signal) (c : ℕ)
      → w.swapped c ≡ true
      → close_chan c w.signal ≡ some s
      → Step w (record w { signal = s; swapped = forget w.swapped c })

pub data Reach (w : World) : World → Type 0 where
  here : Reach w w
  next : {u v : World} → Reach w u → Step u v → Reach w v

abbrev pub waiting : Option ℕ → ℕ
waiting none = 0
waiting (some _) = 1

pub record Inv (w : World) : Type 0 where
  pub current :
      (c : ℕ)
      → w.signal.ch ≡ some c
      → (w.signal.closed c ≡ false) × (w.swapped c ≡ false) × (c < w.signal.next)
  pub pending : (c : ℕ) → w.swapped c ≡ true → (w.signal.closed c ≡ false) × (c < w.signal.next)
  pub future : (c : ℕ) → w.signal.next ≤ c → w.signal.closed c ≡ false
  pub conserved : w.resets ≡ w.triggers + waiting w.signal.ch

-- The world of a signal that `NewSignal` made; its `Reset` counts.
abbrev pub initial : World
initial = record { signal = new_signal; swapped = λ c. false; resets = 1; triggers = 0 }
