-- ===== src/Tests/Grpcweb.antt =====
-- Runs of internal/grpcweb: the writer and the reader of a gRPC-Web response.
use go_grpc_http.Common.{
  ℕ, Option, none, some, List, [], ◌∷◌, ◌++◌, length, Bytes, codes, ◌≡◌, refl, arith, All,
}
use go_grpc_http.Errors.{Error}
use go_grpc_http.Proto.{IsByte, IsU32, make_message_header, put_be_uint32}
use go_grpc_http.Proto.Frames.{frame}
use go_grpc_http.Strings.{has_prefix}
use go_grpc_http.Http.{Header, canonical_header_key, values, store}
use go_grpc_http.Http.Wire.{write_header_bytes}
use go_grpc_http.Trailers.{split_trailers}
use go_grpc_http.Grpcweb.Consume.{start, consume}
use go_grpc_http.Grpcweb.Consume.Automaton.{IsCursor, scan}
use go_grpc_http.Grpcweb.Consume.Bytewise.{consume-scan}
use go_grpc_http.Grpcweb.Consume.Framing.{AreDataFrames, stream}
use go_grpc_http.Grpcweb.ResponseWriter.{Call}
use go_grpc_http.Grpcweb.ResponseWriter.Frames.{
  body, concat, response, response-body, response-consume,
}
use go_grpc_http.Grpcweb.ResponseWriter.Unannounced.{response_unannounced}

start-IsCursor : IsCursor start
start-IsCursor = record { partial = omega arith; between = λ h. refl }

abbrev first_part : Bytes
first_part = 0 ∷ 0 ∷ 0 ∷ []

abbrev second_part : Bytes
second_part = 0 ∷ 1 ∷ b'x' ∷ 128 ∷ 0 ∷ []

consume-scan_example :
    (consume start (first_part ++ second_part) ≡ some (scan start (first_part ++ second_part)))
    × IsCursor (scan start (first_part ++ second_part)).0
consume-scan_example = consume-scan start (first_part ++ second_part) start-IsCursor (omega arith)

abbrev messages : List (ℕ × Bytes)
messages = (0, codes "a") ∷ (1, codes "bcd") ∷ []

messages_frames : AreDataFrames messages
messages_frames = ((omega arith, omega arith), ((omega arith, omega arith), tt))

-- A server that announces one trailer.
abbrev announcing : Header
announcing = (codes "Trailer", codes "Grpc-Status" ∷ []) ∷ []

abbrev with_status : Header
with_status = (codes "Grpc-Status", codes "0" ∷ []) ∷ []

abbrev accepting : List Call → Bytes → Option Error
accepting cs bs = none

announced_lem : values announcing (codes "Trailer") ≡ some (codes "Grpc-Status" ∷ [])
unfolding values
announced_lem = refl

-- The trailers of the frame.
abbrev status_trailers : Bytes
status_trailers = write_header_bytes (split_trailers with_status (codes "Grpc-Status" ∷ [])).1

sent_trailers : status_trailers ≡ codes "Grpc-Status: 0\r\n"
unfolding split_trailers write_header_bytes has_prefix store canonical_header_key values
sent_trailers = refl

small : IsU32 (length status_trailers)
small = rw sent_trailers (omega arith)

sent_bytes :
    All IsByte (body (response accepting announcing 200 (stream messages ∷ []) with_status).0.calls)
sent_bytes =
    rw
      (response-body accepting announcing 200 (stream messages ∷ []) with_status announced_lem
        (λ cs bs. refl) small).1
      (rw sent_trailers (unfold frame make_message_header put_be_uint32 in omega arith))

response-consume_example :
    consume start
      (body (response accepting announcing 200 (stream messages ∷ []) with_status).0.calls)
    ≡ some (start, length (stream messages))
unfolding frame make_message_header
response-consume_example =
    response-consume accepting announcing 200 (stream messages ∷ []) with_status messages
      announced_lem (λ cs bs. refl) small refl messages_frames sent_bytes

unannounced_lem : values with_status (codes "Trailer") ≡ none
unfolding values
unannounced_lem = refl

response_unannounced_example :
    let r = response accepting with_status 200 (codes "a" ∷ []) with_status in
    (r.1 ≡ none) × (body r.0.calls ≡ concat (codes "a" ∷ []))
response_unannounced_example =
    response_unannounced accepting with_status 200 (codes "a" ∷ []) with_status unannounced_lem
