-- ===== src/Concurrency/Signal/Calls.antt =====
-- The methods of a signal, each run without interruption.
use go_grpc_http.Common.{
  ℕ, true, false, not, Option, none, some, ◌≡◌, refl, arith, Option-cases, inl, inr,
}
use go_grpc_http.Concurrency.Signal.{
  Signal, reset, signal, is_done, wait_c, chan_done, new_signal, update, IsSignal, closed_ch, chan,
  WaitableChan,
}

pub new_signal-IsSignal : IsSignal new_signal × (is_done new_signal ≡ false)
unfolding new_signal is_done
new_signal-IsSignal =
    (record { current_open = λ c h. ground arith; future_open = λ c h. refl }, refl)

-- A channel that is done stays done.
unfoldable pub Keeps : Signal → Signal → Type 0
Keeps s t = (w : WaitableChan) → chan_done s w ≡ true → chan_done t w ≡ true

same_closed : (s : Signal) (ch : Option ℕ) → Keeps s (record s { ch = ch })
unfolding Keeps chan_done
same_closed s ch closed_ch h = refl
same_closed s ch (chan c) h = h

one_closed :
    (s : Signal) (ch : Option ℕ) (c : ℕ)
    → Keeps s (record s { ch = ch; closed = update s.closed c })
unfolding Keeps chan_done
one_closed s ch c closed_ch h = refl
one_closed s ch c (chan d) h = ground arith

-- On a signal whose current channel and whose future channels are open, `Reset` returns whether the
-- signal was triggered, leaves it untriggered and well-formed, and takes no snapshot back.
pub reset_lem :
    (s : Signal)
    → IsSignal s
    → ((reset s).1 ≡ is_done s)
      × (is_done (reset s).0 ≡ false)
      × IsSignal (reset s).0
      × Keeps s (reset s).0
unfolding reset is_done Keeps chan_done
reset_lem s v = (
  elim (Option-cases s.ch) [ inl e ↦ ground arith | inr (c, e) ↦ ground (arith, v.current_open c) ],
  elim (Option-cases s.ch) [
    | inl e ↦ ground (arith, v.future_open s.next)
    | inr (c, e) ↦ ground (arith, v.current_open c)
  ],
  record {
    current_open = λ c h. ground (arith, v.future_open c, v.current_open c);
    future_open = λ c h. ground (arith, v.future_open c);
  },
  keeps,
)
  where
    keeps : Keeps s (reset s).0
    keeps closed_ch h = refl
    keeps (chan c) h = ground arith

-- On a signal whose current channel and whose future channels are open, `Signal` does not panic,
-- returns whether the signal was untriggered, leaves it triggered and well-formed, triggers the
-- channel that was handed out, and takes no snapshot back.
pub signal_lem :
    (s : Signal)
    → IsSignal s
    → (t : Signal) × (signal s ≡ some (t, not (is_done s)))
      × (is_done t ≡ true)
      × (chan_done t (wait_c s) ≡ true)
      × IsSignal t
      × Keeps s t
unfolding signal is_done Keeps chan_done wait_c
signal_lem s v = elim (Option-cases s.ch) [
  | inl e ↦ (
    record s { ch = none },
    ground arith,
    refl,
    ground arith,
    record { current_open = λ d h. ground arith; future_open = λ d h. v.future_open d h },
    λ w h. same_closed s none w h,
  )
  | inr (c, e) ↦ (
    record s { ch = none; closed = update s.closed c },
    ground (arith, v.current_open c),
    refl,
    ground arith,
    record {
      current_open = λ d h. ground arith;
      future_open = λ d h. ground (arith, v.future_open d, v.current_open c);
    },
    λ w h. one_closed s none c w h,
  )
]
