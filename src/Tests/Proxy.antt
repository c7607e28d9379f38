-- ===== src/Tests/Proxy.antt =====
-- Runs of the response side of client/ws_proxy.go, and of `writeError` of client/proxy.go.
mod Handled
use go_grpc_http.Common.{
  ℕ, false, Option, none, some, List, [], ◌∷◌, ◌++◌, Bytes, codes, ◌≡◌, ◌≢◌, refl, sym, arith,
  append-nil, All,
}
use go_grpc_http.Errors.{Error, eof, ok, panic, foreign}
use go_grpc_http.Io.Delivery.{chunk, ended}
use go_grpc_http.Proto.Percent.Decoding.{IsPrintable, Repairs, percent_decode}
use go_grpc_http.Http.{
  Header, values, or_empty, store, delete, del, canonical_header_key, all_token, is_token,
  canonical_from,
}
use go_grpc_http.Http.Mime.{are_value_bytes}
use go_grpc_http.Http.Mime.Sent.{IsField}
use go_grpc_http.Http.Mime.Sorting.{IsMap}
use go_grpc_http.Http.Wire.{write_header_bytes}
use go_grpc_http.Strings.{has_prefix}
use go_grpc_http.Trailers.{split_trailers}
use go_grpc_http.Grpcweb.Consume.Framing.{AreDataFrames, stream}
use go_grpc_http.Grpcweb.ResponseWriter.{Call, wrote_header}
use go_grpc_http.Grpcweb.ResponseWriter.Frames.{concat}
use go_grpc_http.Grpcwebsocket.{Sent}
use go_grpc_http.Grpcwebsocket
use go_grpc_http.Server.WebsocketReader.{binary}
use go_grpc_http.Server.WebsocketWriter.{response_header, close_trailers}
use go_grpc_http.Server.WebsocketWriter.Frames.{header_block, trailer_block, response}
use go_grpc_http.Client.Proxy.Failure.{unavailable, write_error, write_error_lem}
use go_grpc_http.Client.WebsocketProxy.Response.{
  CloseStatus, normal_closure, WebsocketConn, new_websocket_conn, read_from_server,
}
use go_grpc_http.Client.WebsocketProxy.Response.Checks.{read_from_server_safe}
use go_grpc_http.Client.WebsocketProxy.Serving.{settle}
use go_grpc_http.Client.WebsocketProxy.Serving.Errors.{
  Written, with_error, first_error, fine, settle-Written,
}
use go_grpc_http.Tunnel.Response.{trailers_of, ReadsResponse, response-read_from_server}

abbrev keeping : List Bytes → Bytes → Sent (List Bytes)
keeping c m = (c ++ m ∷ [], none)

abbrev no_pipe_error : List Bytes → Bytes → Option Error
no_pipe_error xs p = none

abbrev no_failure : List Call → Bytes → Option Error
no_failure cs bs = none

abbrev normal : Error → CloseStatus
normal e = normal_closure

abbrev announcing : Header
announcing = (codes "Trailer", codes "Grpc-Status" ∷ []) ∷ (codes "A", codes "b" ∷ []) ∷ []

abbrev with_status : Header
with_status = (codes "Grpc-Status", codes "0" ∷ []) ∷ []

abbrev messages : List (ℕ × Bytes)
messages = (0, codes "hello") ∷ (0, []) ∷ []

messages_frames : AreDataFrames messages
messages_frames = ((omega arith, omega arith), ((omega arith, omega arith), tt))

sent_header : header_block announcing ≡ codes "A: b\r\n"
unfolding response_header write_header_bytes del delete canonical_header_key
sent_header = refl

sent_trailers : trailer_block announcing with_status ≡ codes "Grpc-Status: 0\r\n"
unfolding close_trailers split_trailers write_header_bytes has_prefix store canonical_header_key
    values
sent_trailers = refl

header-IsMap : IsMap (response_header announcing)
unfolding response_header del delete values canonical_header_key
header-IsMap = (refl, tt)

header-IsField : All IsField (response_header announcing)
unfolding response_header del delete canonical_header_key are_value_bytes is_token all_token
    canonical_from
header-IsField =
    (record { some_key = refl; token = refl; canonical = refl; bytes = (refl, tt) }, tt)

trailers-IsMap : IsMap (trailers_of announcing with_status)
unfolding close_trailers values split_trailers has_prefix store canonical_header_key
trailers-IsMap = (refl, tt)

trailers-IsField : All IsField (trailers_of announcing with_status)
unfolding close_trailers values split_trailers has_prefix store canonical_header_key are_value_bytes
    is_token all_token canonical_from
trailers-IsField =
    (record { some_key = refl; token = refl; canonical = refl; bytes = (refl, tt) }, tt)

no_status : or_empty (values (response_header announcing) (codes "Grpc-Status")) ≡ []
unfolding response_header del delete values canonical_header_key
no_status = refl

abbrev piped_bytes : Bytes
piped_bytes =
    concat (response no_pipe_error announcing 200 (stream messages ∷ []) with_status).0.written

response-read_from_server_example :
    (s : Sent (List Bytes)) × (Grpcwebsocket.write keeping [] ((piped_bytes, none) ∷ []) ≡ some s)
    × (s.1 ≡ none
        → ReadsResponse normal no_failure
            (response_header announcing)
            (trailers_of announcing with_status)
            messages
            eof
            s.0)
response-read_from_server_example =
    response-read_from_server keeping (λ c. c) (λ c m h. refl) normal [] no_pipe_error no_failure
      announcing 200 (stream messages ∷ []) with_status messages eof refl (λ xs p. refl)
      (λ cs bs. refl) (rw sent_header (omega arith)) (rw sent_trailers (omega arith)) header-IsMap
      header-IsField trailers-IsMap trailers-IsField (append-nil (stream messages)) messages_frames
      no_status refl (chunk ended (sym (append-nil piped_bytes)))

read_from_server_safe_example :
    (read_from_server no_failure normal ((binary, 128 ∷ 0 ∷ []) ∷ []) eof (new_websocket_conn [])).1
    ≢ panic
read_from_server_safe_example =
    read_from_server_safe no_failure normal ((binary, 128 ∷ 0 ∷ []) ∷ []) eof
      (new_websocket_conn [])

abbrev text_of : Error → Bytes
text_of e = codes "reset by peer"

-- The trailers are there, and then the request's body cannot be sent any more.
abbrev answered : WebsocketConn
answered = new_websocket_conn ((codes "Trailer:Grpc-Status", codes "0" ∷ []) ∷ [])

settle-Written_example :
    Written text_of
      (with_error answered (first_error false (some (foreign 1)) none))
      (settle text_of false (some (foreign 1)) (fine answered, ok tt))
settle-Written_example =
    settle-Written text_of answered false (some (foreign 1)) (ok tt) (λ e. omega arith)

write_error_lem_example :
    (final first : Header) × (msg : Bytes) × (write_error text_of [] (foreign 1)
      ≡ some (final, wrote_header 200 first ∷ []))
    × (values first (codes "Content-Type") ≡ some (codes "application/grpc" ∷ []))
    × (values first (codes "Trailer") ≡ some (codes "Grpc-Status" ∷ codes "Grpc-Message" ∷ []))
    × (values final (codes "Grpc-Status") ≡ some (unavailable ∷ []))
    × (values final (codes "Grpc-Message") ≡ some (msg ∷ []))
    × All IsPrintable msg
    × Repairs (codes "transport: reset by peer") (percent_decode msg)
unfolding values
write_error_lem_example = write_error_lem text_of [] (foreign 1) (omega arith)
