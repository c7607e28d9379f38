-- ===== src/Tests/Websocket.antt =====
-- Runs of the tunnel through a WebSocket: internal/grpcwebsocket, and the server's reader.
use go_grpc_http.Common.{
  ℕ, suc, none, some, List, [], ◌∷◌, ◌++◌, length, Bytes, codes, ◌≡◌, refl, arith,
}
use go_grpc_http.Errors.{eof}
use go_grpc_http.Io.{Reader}
use go_grpc_http.Io.Delivery.{Delivers, chunk, ended, last}
use go_grpc_http.Proto.{make_message_header, put_be_uint32}
use go_grpc_http.Proto.Frames.{frame}
use go_grpc_http.Grpcweb.Consume.Framing.{AreDataFrames, stream}
use go_grpc_http.Grpcwebsocket.{Sent, write}
use go_grpc_http.Grpcwebsocket.Splitting.{Splits}
use go_grpc_http.Grpcwebsocket.Sending.{tail_error, send_all, write-Splits}
use go_grpc_http.Client.WebsocketProxy.{write_to_server}
use go_grpc_http.Server.WebsocketReader.{WsReader, read}
use go_grpc_http.Server.WebsocketReader.Delivery.{
  Pending, pending, Progress, drain, read-Progress, drain-Pending,
}
use go_grpc_http.Tunnel.{server_reader, frames, Sends-frames, write_to_server-drain}

-- A connection that keeps what is written.
abbrev keeping : List Bytes → Bytes → Sent (List Bytes)
keeping c m = (c ++ m ∷ [], none)

abbrev messages : List (ℕ × Bytes)
messages = (0, codes "hello") ∷ (1, []) ∷ []

messages_frames : AreDataFrames messages
messages_frames = ((omega arith, omega arith), ((omega arith, omega arith), tt))

-- The stream in one chunk.
abbrev whole : Reader
whole = (stream messages, none) ∷ []

whole-Delivers : Delivers whole (stream messages) eof
unfolding frame make_message_header
whole-Delivers = chunk ended refl

-- A frame that is cut by the end of its reader, in two chunks.
abbrev cut : Reader
cut = (0 ∷ 0 ∷ [], none) ∷ (0 ∷ 0 ∷ 9 ∷ b'x' ∷ [], some eof) ∷ []

cut-Delivers : Delivers cut (0 ∷ 0 ∷ 0 ∷ 0 ∷ 9 ∷ b'x' ∷ []) eof
cut-Delivers = chunk (last ended) refl

write-Splits_example :
    (msgs : List Bytes) × (tail : Bytes) × Splits (0 ∷ 0 ∷ 0 ∷ 0 ∷ 9 ∷ b'x' ∷ []) msgs tail
    × (write keeping [] cut ≡ some (send_all keeping [] msgs (tail_error tail eof)))
write-Splits_example = write-Splits keeping [] cut-Delivers (omega arith)

write_to_server-drain_example :
    (s : Sent (List Bytes)) × (write_to_server keeping [] whole ≡ some s)
    × (s.1 ≡ none
        → drain (suc (length (stream messages))) 3 (server_reader s.0) ≡ some (stream messages))
write_to_server-drain_example =
    write_to_server-drain keeping (λ c. c) (λ c m h. refl) [] messages 3 refl whole-Delivers
      messages_frames (omega arith)

abbrev reader : WsReader
reader = server_reader (frames messages ++ (128 ∷ 0 ∷ 0 ∷ 0 ∷ 0 ∷ []) ∷ [])

reader-Pending : Pending reader (stream messages)
reader-Pending = pending (stream messages) refl (Sends-frames messages messages_frames) refl

read-Progress_example : Progress 3 (stream messages) (read 3 reader)
read-Progress_example = read-Progress 3 reader (omega arith) reader-Pending

drain-Pending_example : drain 16 3 reader ≡ some (stream messages)
unfolding frame make_message_header put_be_uint32
drain-Pending_example = drain-Pending 16 3 reader (omega arith) reader-Pending (omega arith)
