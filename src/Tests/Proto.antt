-- ===== src/Tests/Proto.antt =====
-- Runs of internal/grpcproto: headers, frames and the encoding of status messages.
use go_grpc_http.Common.{some, [], ◌∷◌, ◌++◌, Bytes, codes, ◌≡◌, refl, ◌↔◌, ◌⊎◌, arith, All}
use go_grpc_http.Errors.{ok}
use go_grpc_http.Proto.{
  IsByte, IsU32, parse_message_header, make_message_header, validate_grpc_frame,
}
use go_grpc_http.Proto.Headers.{parse_message_header-make, make-parse_message_header}
use go_grpc_http.Proto.Frames.{IsFrame, Refused, validate_grpc_frame_iff, validate_grpc_frame_lem}
use go_grpc_http.Proto.Percent.{encode_grpc_message}
use go_grpc_http.Proto.Percent.Decoding.{
  encode_grpc_message-Encodes, IsPrintable, Repairs, percent_decode,
}

abbrev hello : Bytes
hello = 0 ∷ 0 ∷ 0 ∷ 0 ∷ 2 ∷ b'h' ∷ b'i' ∷ []

hello_bytes : All IsByte hello
hello_bytes = omega arith

parse_message_header-make_example :
    parse_message_header (make_message_header 1 70000) ≡ ok (1, 70000)
parse_message_header-make_example = parse_message_header-make 1 70000 (omega arith)

make-parse_message_header_example :
    (make_message_header 128 258 ≡ 128 ∷ 0 ∷ 0 ∷ 1 ∷ 2 ∷ []) × IsByte 128 × IsU32 258
unfolding parse_message_header
make-parse_message_header_example =
    make-parse_message_header (128 ∷ 0 ∷ 0 ∷ 1 ∷ 2 ∷ []) (omega arith) refl

validate_grpc_frame_iff_example : (validate_grpc_frame hello ≡ ok tt) ↔ IsFrame hello
validate_grpc_frame_iff_example = validate_grpc_frame_iff hello hello_bytes

validate_grpc_frame_lem_example :
    ((validate_grpc_frame (0 ∷ hello) ≡ ok tt) × IsFrame (0 ∷ hello)) ⊎ Refused (0 ∷ hello)
validate_grpc_frame_lem_example = validate_grpc_frame_lem (0 ∷ hello) (omega arith)

-- A text with a letter of two bytes, a percent sign, and a byte that is not UTF-8.
abbrev grue : Bytes
grue = codes "gr" ++ (0xc3 ∷ 0xbc ∷ b'%' ∷ 0xff ∷ [])

encode_grpc_message-Encodes_example :
    (out : Bytes) × (encode_grpc_message grue ≡ some out)
    × All IsPrintable out
    × Repairs grue (percent_decode out)
encode_grpc_message-Encodes_example = encode_grpc_message-Encodes grue (omega arith)
