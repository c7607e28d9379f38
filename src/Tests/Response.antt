-- ===== src/Tests/Response.antt =====
-- A run of server/websocket_writer.go with the connection behind it.
use go_grpc_http.Common.{ℕ, Option, none, List, [], ◌∷◌, ◌++◌, Bytes, codes}
use go_grpc_http.Errors.{Error}
use go_grpc_http.Http.{Header}
use go_grpc_http.Grpcweb.Consume.Framing.{stream}
use go_grpc_http.Grpcweb.ResponseWriter.Frames.{concat}
use go_grpc_http.Grpcwebsocket
use go_grpc_http.Grpcwebsocket.{Sent}
use go_grpc_http.Server.WebsocketWriter.Frames.{response}

abbrev sending : List Bytes → Bytes → Sent (List Bytes)
sending c m = (c ++ m ∷ [], none)

abbrev piping : List Bytes → Bytes → Option Error
piping xs p = none

abbrev announcing : Header
announcing = (codes "Trailer", codes "Grpc-Status" ∷ []) ∷ (codes "A", codes "b" ∷ []) ∷ []

abbrev with_status : Header
with_status = (codes "Grpc-Status", codes "0" ∷ []) ∷ []

abbrev messages : List (ℕ × Bytes)
messages = (0, codes "hello") ∷ (0, []) ∷ []

abbrev piped_bytes : Bytes
piped_bytes = concat (response piping announcing 200 (stream messages ∷ []) with_status).0.written
