-- ===== src/Grpcweb/Consume/Framing.antt =====
-- `consume` on a response that is a list of frames.
use go_grpc_http.Common.{
  ℕ, ◌+◌, ◌-◌, ◌≤◌, ◌<◌, some, List, [], ◌∷◌, ◌++◌, length, Bytes, arith, ◌≡◌, refl, ap, ◌∙◌, All,
  append_assoc, length-append, drop-append_length,
}
use go_grpc_http.Proto.{IsByte, IsU32, be_uint32, make_message_header}
use go_grpc_http.Proto.Frames.{frame, length-frame}
use go_grpc_http.Grpcweb.Consume.{Cursor, start, announced, header_appended, consume}
use go_grpc_http.Grpcweb.Consume.Automaton.{
  advance, scan, scan_begin, scan_message, append_header, IsCursor,
}
use go_grpc_http.Grpcweb.Consume.Bytewise.{consume-scan}

pub announced_lem : (flags n : ℕ) → IsU32 n → announced (make_message_header flags n) ≡ n
unfolding make_message_header be_uint32
announced_lem flags n h = omega arith

-- The cursor in front of a message of `n` bytes.
abbrev in_message : ℕ → Cursor
in_message n = record { curr_message_remaining = n; curr_partial_msg_header = [] }

header_complete :
    (flags n : ℕ)
    → IsU32 n
    → header_appended (append_header start (make_message_header flags n)) ≡ in_message n
unfolding header_appended make_message_header
header_complete flags n h = ground (arith, announced_lem flags n)

minus_self : (n : ℕ) → n - n ≡ 0
minus_self n = omega arith

-- A data frame is taken whole.
scan-frame :
    (flags : ℕ) (payload rest : Bytes)
    → flags < 128
    → IsU32 (length payload)
    → scan start (frame flags payload ++ rest)
      ≡ (let s = scan start rest in (s.0, length (frame flags payload) + s.1))
unfolding frame
scan-frame flags payload rest f h =
    header
    ∙ rw (header_complete flags (length payload) h) (
        rw
          (scan_message (length payload) (in_message (length payload)) (payload ++ rest)
            (omega arith) (omega (arith, length-append payload rest)))
          (rw (drop-append_length (length payload) payload rest refl)
            (rw (minus_self (length payload)) (rw (length-frame flags payload) (ground arith)))))
  where
    header : scan start ((make_message_header flags (length payload) ++ payload) ++ rest) ≡ (
        let s =
          scan
            (header_appended (append_header start (make_message_header flags (length payload))))
            (payload ++ rest) in
        (s.0, 5 + s.1))
    header =
        unfold make_message_header in
        scan_begin 4 start flags _ refl (ground arith) (omega arith)
          (omega (arith, length-append payload rest))

start-IsCursor : IsCursor start
start-IsCursor = record { partial = omega arith; between = λ h. refl }

-- A trailer frame is not looked into.
pub scan_trailer :
    (flags : ℕ) (payload rest : Bytes)
    → 128 ≤ flags
    → scan start (frame flags payload ++ rest) ≡ (start, 0)
unfolding scan advance frame make_message_header
scan_trailer flags payload rest f = ground arith

-- A list of data frames, as pairs of flags and payload.
abbrev pub AreDataFrames : List (ℕ × Bytes) → Type 0
AreDataFrames = All (λ m. (m.0 < 128) × IsU32 (length m.1))

abbrev pub stream : List (ℕ × Bytes) → Bytes
stream [] = []
stream (m ∷ ms) = frame m.0 m.1 ++ stream ms

pub scan-stream :
    (ms : List (ℕ × Bytes)) (rest : Bytes)
    → AreDataFrames ms
    → scan start (stream ms ++ rest) ≡ (let s = scan start rest in (s.0, length (stream ms) + s.1))
scan-stream [] rest h = ground arith
scan-stream ((flags, payload) ∷ ms) rest ((f, n), h) = rw append_assoc (
    scan-frame flags payload (stream ms ++ rest) f n
    ∙ rw (scan-stream ms rest h) (ground (arith, length-append (frame flags payload) (stream ms))))

-- On bytes that are data frames with a trailer frame behind them, `consume` of a new response reader
-- takes the data frames, byte for byte, and stops in front of the trailer frame, expecting a header.
pub consume-stream :
    (ms : List (ℕ × Bytes)) (flags : ℕ) (trailers rest : Bytes)
    → AreDataFrames ms
    → 128 ≤ flags
    → All IsByte (stream ms ++ (frame flags trailers ++ rest))
    → consume start (stream ms ++ (frame flags trailers ++ rest)) ≡ some (start, length (stream ms))
consume-stream ms flags trailers rest h f bytes =
    (consume-scan start _ start-IsCursor bytes).0
    ∙ ap some (scan-stream ms _ h ∙ rw (scan_trailer flags trailers rest f) (ground arith))
