-- ===== src/Tests/Reader.antt =====
-- Runs of `Read` of internal/grpcweb/response_reader.go.
mod Modified
use go_grpc_http.Common.{
  ℕ, ◌<◌, Option, none, some, List, [], ◌∷◌, ◌++◌, Bytes, codes, ◌≡◌, refl, sym, ap, ◌∙◌, subst,
  arith, append-nil, All, map,
}
use go_grpc_http.Errors.{Error, eof}
use go_grpc_http.Io.{Reader}
use go_grpc_http.Io.Delivery.{chunk, ended}
use go_grpc_http.Io.Reading.{weight}
use go_grpc_http.Proto.{make_message_header, put_be_uint32, IsByte}
use go_grpc_http.Proto.Frames.{frame}
use go_grpc_http.Http.{
  Header, values, or_empty, store, canonical_header_key, all_token, is_token, canonical_from,
}
use go_grpc_http.Http.Mime.{
  parsed, refused, read_mime_header, trim, cut_colon, add_line, mime_key, are_value_bytes,
  has_bad_byte, has_space, append_value,
}
use go_grpc_http.Http.Mime.Sent.{sent, IsField}
use go_grpc_http.Http.Mime.Sorting.{IsMap}
use go_grpc_http.Http.Wire.{write_header_bytes}
use go_grpc_http.Strings.{has_prefix}
use go_grpc_http.Trailers.{split_trailers}
use go_grpc_http.Grpcweb.Consume.{start}
use go_grpc_http.Grpcweb.Consume.Framing.{AreDataFrames, stream}
use go_grpc_http.Grpcweb.ResponseWriter.{Call}
use go_grpc_http.Grpcweb.ResponseWriter.Frames.{body, response, response-body}
use go_grpc_http.Grpcweb.ResponseReader.{new_response_reader, populate_trailers, read}
use go_grpc_http.Grpcweb.ResponseReader.Delivery.{read_to_end, read_to_end_lem}
use go_grpc_http.Grpcweb.ResponseReader.Unterminated.{at_trailers, read_unterminated}
use go_grpc_http.Grpcweb.ResponseReader.Response.{response-read_to_end}

abbrev trailer_text : Bytes
trailer_text = codes "Grpc-Status: 0\r\n"

abbrev status_trailers : Header
status_trailers = (codes "Grpc-Status", codes "0" ∷ []) ∷ []

text_parsed : read_mime_header eof (trailer_text ++ codes "\r\n") ≡ parsed status_trailers []
unfolding read_mime_header canonical_from is_token values store trim add_line cut_colon mime_key
    are_value_bytes has_bad_byte has_space append_value
text_parsed = refl

abbrev messages : List (ℕ × Bytes)
messages = (0, codes "hello") ∷ []

messages_frames : AreDataFrames messages
messages_frames = ((omega arith, omega arith), tt)

-- The response in two chunks.
abbrev chunks : Reader
chunks = (stream messages, none) ∷ (frame 128 trailer_text, none) ∷ []

read_to_end_lem_example :
    read_to_end none 100 4 (new_response_reader chunks [])
    ≡ some (stream messages, populate_trailers [] status_trailers)
unfolding frame make_message_header put_be_uint32
read_to_end_lem_example =
    read_to_end_lem none 100 4 [] messages trailer_text {h = status_trailers} {body = chunks}
      (omega arith) messages_frames (omega arith) (omega arith) (chunk (chunk ended refl) refl)
      text_parsed (omega arith)

abbrev cut_text : Bytes
cut_text = codes "rpc-Status: 0"

cut_refused : read_mime_header eof ((b'G' ∷ cut_text) ++ codes "\r\n") ≡ refused eof
unfolding read_mime_header canonical_from is_token values store trim add_line cut_colon mime_key
    are_value_bytes has_bad_byte has_space append_value
cut_refused = refl

read_unterminated_example :
    (read none 8 (at_trailers [] start b'G' cut_text)
      ≡ some (at_trailers [] start b'G' cut_text, [], none))
    × ((calls : ℕ) → read_to_end none calls 8 (at_trailers [] start b'G' cut_text) ≡ none)
read_unterminated_example =
    read_unterminated none [] start b'G' cut_text 8 (omega arith) cut_refused

-- A connection that does not fail, and a response over it.
abbrev no_failure : List Call → Bytes → Option Error
no_failure cs bs = none

abbrev announcing : Header
announcing =
    (codes "Trailer", codes "Grpc-Status" ∷ [])
    ∷ (codes "Content-Type", codes "application/grpc" ∷ [])
    ∷ []

abbrev trailers : Header
trailers = (split_trailers status_trailers (codes "Grpc-Status" ∷ [])).1

trailers_written : write_header_bytes trailers ≡ trailer_text
unfolding split_trailers has_prefix store canonical_header_key values write_header_bytes
trailers_written = refl

trailers-IsMap : IsMap trailers
unfolding values split_trailers has_prefix store canonical_header_key
trailers-IsMap = (refl, tt)

trailers-IsField : All IsField trailers
unfolding split_trailers has_prefix store canonical_header_key values are_value_bytes is_token
    all_token canonical_from
trailers-IsField =
    (record { some_key = refl; token = refl; canonical = refl; bytes = (refl, tt) }, tt)

abbrev body_bytes : Bytes
body_bytes =
    body (response no_failure announcing 200 (stream messages ∷ []) status_trailers).0.calls

body_sent : body_bytes ≡ stream messages ++ frame 128 trailer_text
unfolding values frame make_message_header
body_sent =
    (response-body no_failure announcing 200 (stream messages ∷ []) status_trailers refl
      (λ cs bs. refl) (rw trailers_written (omega arith))).1
    ∙ ap (λ t. (stream messages ++ []) ++ frame 128 t) trailers_written

body_IsByte : All IsByte body_bytes
unfolding frame make_message_header put_be_uint32
body_IsByte = subst (All IsByte) (sym body_sent) (omega arith)

response-read_to_end_example :
    (got : Header) × (read_to_end none 50 4 (new_response_reader ((body_bytes, none) ∷ []) [])
      ≡ some (stream messages, got))
    × ((k : Bytes) → or_empty (values got k) ≡ map sent (or_empty (values trailers k)))
unfolding values frame make_message_header
response-read_to_end_example =
    response-read_to_end no_failure none announcing 200 (stream messages ∷ []) status_trailers
      messages 50 4 refl (λ cs bs. refl) (append-nil (stream messages)) messages_frames
      trailers-IsMap trailers-IsField (rw trailers_written (omega arith)) body_IsByte
      (chunk ended (sym (append-nil body_bytes))) (omega arith)
      (subst (λ bs. weight ((bs, none) ∷ []) < 50) (sym body_sent) (omega arith))
