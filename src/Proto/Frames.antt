-- ===== src/Proto/Frames.antt =====
-- What the tests on a frame accept.
use go_grpc_http.Common.{
  ℕ, ◌+◌, ◌*◌, ◌%◌, ◌<◌, ◌≡◌, ◌↔◌, refl, true, [], ◌∷◌, ◌++◌, arith, length, All, Bytes, ltb, leb,
  ◌==◌, ◌≢◌, equal_iff, Bool-cases, ◌⊎◌, inl, inr,
}
use go_grpc_http.Common.Bits.{top_bit, low_bit}
use go_grpc_http.Errors.{ok, err, length_mismatch, short_frame}
use go_grpc_http.Proto.{
  IsByte, IsU32, make_message_header, validate_grpc_frame, is_data_frame, is_metadata_frame,
  is_compressed, is_end_of_stream, end_stream_header,
}

-- The frame that carries `payload`, as `MakeMessageHeader` and the payload put it together.
unfoldable pub frame : ℕ → Bytes → Bytes
frame flags payload = make_message_header flags (length payload) ++ payload

pub length-frame : (flags : ℕ) (payload : Bytes) → length (frame flags payload) ≡ 5 + length payload
unfolding frame make_message_header
length-frame flags payload = omega arith

-- `ValidateGRPCFrame` accepts every frame whose payload length fits 32 bits.
pub validate_grpc_frame-frame :
    (flags : ℕ) (payload : Bytes)
    → IsU32 (length payload)
    → validate_grpc_frame (frame flags payload) ≡ ok tt
unfolding validate_grpc_frame frame make_message_header
validate_grpc_frame-frame flags payload h = ground arith

-- The head of an accepted message and what is behind it.
pub data IsFrame (msg : Bytes) : Type 0 where
  framed :
      (flags : ℕ) (payload : Bytes)
      → IsByte flags
      → IsU32 (length payload)
      → msg ≡ frame flags payload
      → IsFrame msg

-- A message of bytes that `ValidateGRPCFrame` accepts is a header over its own payload.
validate-IsFrame : (msg : Bytes) → All IsByte msg → validate_grpc_frame msg ≡ ok tt → IsFrame msg
unfolding validate_grpc_frame frame make_message_header
validate-IsFrame (f ∷ a ∷ b ∷ c ∷ d ∷ payload) h e =
    framed f payload (omega arith) (ground arith) (ground arith)
validate-IsFrame _ h e = absurd (ground arith)

-- `ValidateGRPCFrame` accepts a message of bytes exactly when it is a five-byte header over a payload
-- of the declared length.
pub validate_grpc_frame_iff :
    (msg : Bytes) → All IsByte msg → (validate_grpc_frame msg ≡ ok tt) ↔ IsFrame msg
validate_grpc_frame_iff msg h = (validate-IsFrame msg h, back)
  where
    back : IsFrame msg → validate_grpc_frame msg ≡ ok tt
    back (framed flags payload f n e) = rw e (validate_grpc_frame-frame flags payload n)

-- How `ValidateGRPCFrame` refuses a message.
pub data Refused (msg : Bytes) : Type 0 where
  short : length msg < 5 → validate_grpc_frame msg ≡ err (short_frame (length msg)) → Refused msg
  mismatch :
      (flags n : ℕ) (payload : Bytes)
      → msg ≡ make_message_header flags n ++ payload
      → n ≢ length payload
      → validate_grpc_frame msg ≡ err (length_mismatch n (length payload))
      → Refused msg

-- On a message of bytes `ValidateGRPCFrame` never panics: it returns no error, and the message is a
-- frame, or it names the length of a message that is shorter than a header, or the two lengths that
-- differ.
pub validate_grpc_frame_lem :
    (msg : Bytes) → All IsByte msg → ((validate_grpc_frame msg ≡ ok tt) × IsFrame msg) ⊎ Refused msg
unfolding validate_grpc_frame make_message_header
validate_grpc_frame_lem (f ∷ a ∷ b ∷ c ∷ d ∷ payload) h =
    let n = a * 16777216 + b * 65536 + c * 256 + d in
    elim (Bool-cases (n == length payload)) [
      | inl same ↦ inl (ground arith, validate-IsFrame _ h (ground arith))
      | inr other ↦ inr (mismatch f n payload (ground arith) (ground arith) (ground arith))
    ]
validate_grpc_frame_lem [] h = inr (short (omega arith) refl)
validate_grpc_frame_lem _ h = inr (short (omega arith) (ground arith))

-- On a frame whose flags are a byte, the three tests read the flags: the top bit for metadata, its
-- absence for data, the low bit for compression.
pub frame_kind :
    (flags : ℕ) (payload : Bytes)
    → IsByte flags
    → (is_data_frame (frame flags payload) ≡ ok (ltb flags 128))
      × (is_metadata_frame (frame flags payload) ≡ ok (leb 128 flags))
      × (is_compressed (frame flags payload) ≡ ok (flags % 2 == 1))
unfolding frame make_message_header is_data_frame is_metadata_frame is_compressed
frame_kind flags payload h =
    (ground (arith, top_bit flags), ground (arith, top_bit flags), ground (arith, low_bit flags))

-- `EndStreamHeader` is the one metadata frame with no other flag and no payload, so no data frame is
-- taken for the end of the stream.
pub is_end_of_stream_iff : (msg : Bytes) → (is_end_of_stream msg ≡ true) ↔ (msg ≡ frame 128 [])
unfolding is_end_of_stream frame make_message_header
is_end_of_stream_iff msg = equal_iff msg end_stream_header
