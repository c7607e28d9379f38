-- ===== src/Tunnel.antt =====
-- A request body through the WebSocket: client/ws_proxy.go and internal/grpcwebsocket/write.go send it,
-- server/websocket_reader.go reads it.
pub mod Response
use go_grpc_http.Common.{
  ℕ, suc, ◌<◌, none, some, List, [], ◌∷◌, ◌++◌, length, Bytes, ◌≡◌, refl, sym, ap, ◌∙◌, arith,
  append_assoc, append-nil,
}
use go_grpc_http.Errors.{eof}
use go_grpc_http.Io.{Reader}
use go_grpc_http.Io.Delivery.{Delivers, chunk, ended}
use go_grpc_http.Proto.{end_stream_header}
use go_grpc_http.Proto.Frames.{frame}
use go_grpc_http.Grpcweb.Consume.Framing.{AreDataFrames, stream}
use go_grpc_http.Grpcwebsocket.{Sent}
use go_grpc_http.Grpcwebsocket.Splitting.{Splits, cut_header, done, message}
use go_grpc_http.Grpcwebsocket.Sending.{send_all, unless_failed, write-of_Splits}
use go_grpc_http.Client.WebsocketProxy.{write_to_server, announce_end}
use go_grpc_http.Server.WebsocketReader.{Arrival, result, opened, binary, WsReader}
use go_grpc_http.Server.WebsocketReader.Delivery.{
  Sends, end_of_stream, data_frame, pending, drain, drain-Pending,
}

-- The messages of a connection as they arrive at the server, each in one chunk.
abbrev pub arrivals_of : List Bytes → List Arrival
arrivals_of [] = []
arrivals_of (m ∷ ms) = result (opened binary ((m, none) ∷ [])) ∷ arrivals_of ms

-- `newWebSocketReader` on such a connection.
abbrev pub server_reader : List Bytes → WsReader
server_reader msgs = record { curr_msg = []; err = none; arrivals = arrivals_of msgs }

abbrev pub frames : List (ℕ × Bytes) → List Bytes
frames [] = []
frames (m ∷ ms) = frame m.0 m.1 ∷ frames ms

Splits-stream : (ms : List (ℕ × Bytes)) → AreDataFrames ms → Splits (stream ms) (frames ms) []
Splits-stream [] h = done (cut_header (omega arith))
Splits-stream ((f, p) ∷ ms) ((_, n), h) = message f p n (Splits-stream ms h) refl

Delivers-whole : (m : Bytes) → Delivers ((m, none) ∷ []) m eof
Delivers-whole m = chunk ended (sym (append-nil m))

pub Sends-frames :
    (ms : List (ℕ × Bytes))
    → AreDataFrames ms
    → Sends (arrivals_of (frames ms ++ end_stream_header ∷ [])) (stream ms)
Sends-frames [] h = end_of_stream (Delivers-whole end_stream_header)
Sends-frames ((f, p) ∷ ms) ((lt, n), h) =
    data_frame f p lt n (Delivers-whole (frame f p)) (Sends-frames ms h) refl

-- The connection: `delivered` are the messages that the server gets, in order, and a write without an
-- error adds its message.
module _ {Conn : Type 0} (conn_write : Conn → Bytes → Sent Conn) (delivered : Conn → List Bytes)
    (write_delivers : (c : Conn) (m : Bytes)
      → (conn_write c m).1 ≡ none
      → delivered (conn_write c m).0 ≡ delivered c ++ m ∷ []) where
  send_all-delivered :
      (c : Conn) (msgs : List Bytes)
      → (send_all conn_write c msgs none).1 ≡ none
      → delivered (send_all conn_write c msgs none).0 ≡ delivered c ++ msgs
  send_all-delivered c [] h = sym (append-nil (delivered c))
  send_all-delivered c (m ∷ ms) h =
      go (conn_write c m) h (write_delivers c m) (send_all-delivered (conn_write c m).0 ms)
    where
      go :
          (s : Sent Conn)
          → (unless_failed s (send_all conn_write s.0 ms none)).1 ≡ none
          → (s.1 ≡ none → delivered s.0 ≡ delivered c ++ m ∷ [])
          → ((send_all conn_write s.0 ms none).1 ≡ none
              → delivered (send_all conn_write s.0 ms none).0 ≡ delivered s.0 ++ ms)
          → delivered (unless_failed s (send_all conn_write s.0 ms none)).0 ≡ delivered c ++ m ∷ ms
      go (c', none) h w later =
          later h ∙ ap (λ x. x ++ ms) (w refl) ∙ append_assoc (delivered c) (m ∷ []) ms
      go (c', some e) h w later = cc

  announce_end-delivered :
      (s : Sent Conn)
      → (announce_end conn_write s).1 ≡ none
      → (s.1 ≡ none)
        × (delivered (announce_end conn_write s).0 ≡ delivered s.0 ++ end_stream_header ∷ [])
  unfolding announce_end
  announce_end-delivered (c, none) h = (refl, write_delivers c end_stream_header h)
  announce_end-delivered (c, some e) h = cc

  -- A write to the connection that returns no error delivers its message behind those before, and
  -- nothing is delivered yet; the client's request body gives a list of data frames in any chunks and
  -- then io.EOF. Then `writeToServer` returns, and if it returns no error, the server that reads its
  -- body with any buffer that is not empty, to the end, gets the same bytes.
  pub write_to_server-drain :
      (c : Conn) {body : Reader} (ms : List (ℕ × Bytes)) (size : ℕ)
      → delivered c ≡ []
      → Delivers body (stream ms) eof
      → AreDataFrames ms
      → 0 < size
      → (s : Sent Conn) × (write_to_server conn_write c body ≡ some s)
        × (s.1 ≡ none
            → drain (suc (length (stream ms))) size (server_reader (delivered s.0))
              ≡ some (stream ms))
  unfolding write_to_server
  write_to_server-drain c {body} ms size fresh d h pos =
      let written = write-of_Splits conn_write c (Splits-stream ms h) d in
      (
        announce_end conn_write (send_all conn_write c (frames ms) none),
        rw (written, write_to_server),
        arrives,
      )
    where
      arrives :
          (announce_end conn_write (send_all conn_write c (frames ms) none)).1 ≡ none
          → drain (suc (length (stream ms))) size (
              server_reader
                (delivered (announce_end conn_write (send_all conn_write c (frames ms) none)).0))
            ≡ some (stream ms)
      arrives e =
          let (sent, closed) = announce_end-delivered (send_all conn_write c (frames ms) none) e in
          let all = send_all-delivered c (frames ms) sent in
          rw (closed, all, fresh)
            (drain-Pending (suc (length (stream ms))) size
              (server_reader (frames ms ++ end_stream_header ∷ [])) pos
              (pending (stream ms) refl (Sends-frames ms h) refl) (omega arith))
