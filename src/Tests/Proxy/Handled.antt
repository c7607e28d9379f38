-- ===== src/Tests/Proxy/Handled.antt =====
-- A run of `handleGRPCWS` of server/server.go, on the response of the parent module.
use go_grpc_http.Common.{
  ℕ, suc, ◌≤◌, Option, none, some, List, [], ◌∷◌, ◌++◌, ltb, if◌then◌else◌, length, map, All, Bytes,
  codes, ◌≡◌, refl, sym, ap, arith, append-nil,
}
use go_grpc_http.Errors.{eof}
use go_grpc_http.Io.{Reader}
use go_grpc_http.Io.Delivery.{chunk, ended}
use go_grpc_http.Proto.{end_stream_header, make_message_header}
use go_grpc_http.Proto.Frames.{frame}
use go_grpc_http.Http.{Request}
use go_grpc_http.Grpcweb.Consume.Framing.{stream}
use go_grpc_http.Grpcweb.ResponseWriter.Frames.{concat}
use go_grpc_http.Server.WebsocketReader.{Arrival, result, opened, broken, binary, WsReader}
use go_grpc_http.Server.WebsocketReader.Delivery.{drain}
use go_grpc_http.Server.WebsocketWriter.{response_header}
use go_grpc_http.Server.WebsocketHandler.{ServerCall, handle_grpc_ws, accepted}
use go_grpc_http.Server.WebsocketHandler.Served.{
  response_calls, response_messages, Answers, handle_grpc_ws-Answers,
}
use go_grpc_http.Grpcwebsocket.{Sent}
use go_grpc_http.Grpcwebsocket.Sending.{send_all}
use go_grpc_http.Tunnel.{arrivals_of, frames}
use go_grpc_http.Tunnel.Response.{trailers_of, ReadsResponse}
use go_grpc_http.Tests.Proxy.{
  no_pipe_error, no_failure, normal, announcing, with_status, messages, messages_frames,
  sent_header, sent_trailers, header-IsMap, header-IsField, trailers-IsMap, trailers-IsField,
  no_status,
}

-- A connection with a read limit, and the messages that are delivered.
abbrev Limited : Type 0
Limited = ℕ × List Bytes

abbrev keeping : Limited → Bytes → Sent Limited
keeping (limit, c) m = ((limit, c ++ m ∷ []), none)

abbrev set_read_limit : Limited → ℕ → Limited
set_read_limit (_, c) limit = (limit, c)

-- The client sends one frame, and the end of the stream.
abbrev request_frames : List (ℕ × Bytes)
request_frames = (0, codes "hi") ∷ []

abbrev inbox : Limited → List Bytes
inbox c = frames request_frames ++ end_stream_header ∷ []

-- A message that is longer than the limit cannot be read.
abbrev given : ℕ → Bytes → Arrival
given limit m =
    if ltb limit (length m) then result (broken eof) else result (opened binary ((m, none) ∷ []))

abbrev incoming : Limited → List Arrival
incoming c = map (given c.0) (inbox c)

given_lem :
    (limit : ℕ) (m : Bytes)
    → length m ≤ limit
    → given limit m ≡ result (opened binary ((m, none) ∷ []))
given_lem limit m h = ground arith

limit_gives :
    (c : Limited) (limit : ℕ)
    → All (λ m. length m ≤ limit) (inbox c)
    → incoming (set_read_limit c limit) ≡ arrivals_of (inbox c)
limit_gives c limit (h, (k, _)) = rw (given_lem limit _ h, given_lem limit _ k) refl

abbrev pipe : List Bytes → Reader
pipe xs = (concat xs, none) ∷ []

-- A server that answers where it reads the request to its end.
abbrev answering : Option Bytes → List ServerCall
answering none = []
answering (some bs) = response_calls announcing 200 (stream messages ∷ []) with_status

abbrev serving : Request → WsReader → List ServerCall
serving req body = answering (drain (suc (length (stream request_frames))) 4 body)

abbrev upgrade : Request
upgrade = record {
  method = codes "GET";
  proto_major = 1;
  proto_minor = 1;
  proto = codes "HTTP/1.1";
  path = codes "/S/Put";
  scheme = codes "http";
  host = codes "localhost";
  header = (codes "Connection", codes "Upgrade" ∷ []) ∷ [];
  content_length = none;
}

handle_grpc_ws-Answers_example :
    Answers
      (λ c.
        ReadsResponse normal no_failure
          (response_header announcing)
          (trailers_of announcing with_status)
          messages
          eof
          c.1)
      (send_all keeping (67108864, []) (response_messages announcing with_status messages) none)
      (handle_grpc_ws keeping set_read_limit incoming pipe no_pipe_error serving upgrade
        (accepted (0, [])))
unfolding frame make_message_header
handle_grpc_ws-Answers_example =
    handle_grpc_ws-Answers keeping (λ c. c.1) (λ c m h. refl) normal set_read_limit incoming inbox
      limit_gives pipe (λ xs. chunk ended (sym (append-nil (concat xs)))) no_pipe_error
      (λ xs p. refl) serving upgrade (0, []) no_failure request_frames announcing 200
      (stream messages ∷ []) with_status messages eof refl (λ cs bs. refl) refl
      ((omega arith, omega arith), tt) (omega arith, (omega arith, tt))
      (λ body gives. ap answering (gives 4 (omega arith))) (rw sent_header (omega arith))
      (rw sent_trailers (omega arith)) header-IsMap header-IsField trailers-IsMap trailers-IsField
      (append-nil (stream messages)) messages_frames no_status refl
