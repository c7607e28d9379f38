-- ===== src/Grpcwebsocket/Splitting.antt =====
-- A stream of bytes as the gRPC frames that it begins with.
use go_grpc_http.Common.{
  ℕ, zero, suc, ◌+◌, ◌*◌, ◌≤◌, ◌<◌, List, [], ◌∷◌, ◌++◌, length, take, drop, Bytes, ◌≡◌, ap, arith,
  All, append_assoc, All-drop, length-drop, length-take, take-append-drop,
}
use native.Mathlib.Decide.{dec_le}
use go_grpc_http.Proto.{IsByte, IsU32, make_message_header}
use go_grpc_http.Proto.Frames.{frame}

-- Bytes that begin no whole frame.
pub data Partial (bs : Bytes) : Type 0 where
  cut_header : length bs < 5 → Partial bs
  cut_payload :
      (flags n : ℕ) (part : Bytes)
      → IsU32 n
      → length part < n
      → bs ≡ make_message_header flags n ++ part
      → Partial bs

-- The frames of a stream, and the bytes behind the last whole one.
pub data Splits : Bytes → List Bytes → Bytes → Type 0 where
  done : {bs : Bytes} → Partial bs → Splits bs [] bs
  message :
      {bs bs' tail : Bytes} {msgs : List Bytes} (flags : ℕ) (payload : Bytes)
      → IsU32 (length payload)
      → Splits bs msgs tail
      → bs' ≡ frame flags payload ++ bs
      → Splits bs' (frame flags payload ∷ msgs) tail

-- A stream with a whole frame in front of it.
split_frame :
    (f n : ℕ) (header rest : Bytes)
    → header ≡ make_message_header f n
    → n ≤ length rest
    → header ++ rest ≡ frame f (take n rest) ++ drop n rest
unfolding frame
split_frame f n header rest p le = rw p (rw (min_eq, append_assoc, take-append-drop n rest))
  where
    min_eq : length (take n rest) ≡ n
    min_eq = omega (arith, length-take n rest)

header_bytes :
    (f a b c d : ℕ)
    → All IsByte (a ∷ b ∷ c ∷ d ∷ [])
    → f ∷ a ∷ b ∷ c ∷ d ∷ [] ≡ make_message_header f (a * 16777216 + b * 65536 + c * 256 + d)
unfolding make_message_header
header_bytes f a b c d h = ground arith

-- Every stream of bytes is a list of frames and a rest that begins none.
pub split_loop :
    (fuel : ℕ) (bs : Bytes)
    → length bs < fuel
    → All IsByte bs
    → (msgs : List Bytes) × (tail : Bytes) × Splits bs msgs tail
split_loop zero bs h k = absurd (omega arith)
split_loop (suc fuel) (f ∷ a ∷ b ∷ c ∷ d ∷ rest) h (hf, (ha, (hb, (hc, (hd, k))))) =
    let n = a * 16777216 + b * 65536 + c * 256 + d in
    let header = header_bytes f a b c d (ha, (hb, (hc, (hd, tt)))) in
    elim (dec_le n (length rest)) [
      | yes le ↦
          let (msgs, tail, s) =
            split_loop fuel (drop n rest) (omega (arith, length-drop n rest))
              (All-drop IsByte n rest k) in
          (
            frame f (take n rest) ∷ msgs,
            tail,
            message f (take n rest) (omega (arith, length-take n rest)) s
                (split_frame f n (f ∷ a ∷ b ∷ c ∷ d ∷ []) rest header le),
          )
      | no gt ↦ (
        [],
        f ∷ a ∷ b ∷ c ∷ d ∷ rest,
        done (cut_payload f n rest (omega arith) (omega arith) (ap (λ x. x ++ rest) header)),
      )
    ]
split_loop (suc fuel) bs h k = ([], bs, done (cut_header (omega arith)))
