-- ===== src/Client/WebsocketProxy.antt =====
-- client/ws_proxy.go: the request side of `websocketConn`.
pub mod Response
pub mod Serving
use go_grpc_http.Common.{Option, none, some, Bytes}
use go_grpc_http.Grpcwebsocket.{Sent, write}
use go_grpc_http.Io.{Reader}
use go_grpc_http.Proto.{end_stream_header}

module _ {Conn : Type 0} (conn_write : Conn → Bytes → Sent Conn) where
  -- `writeToServer` behind `Write`: the end of the stream is announced if all was sent.
  unfoldable pub announce_end : Sent Conn → Sent Conn
  announce_end (conn, some e) = (conn, some e)
  announce_end (conn, none) = conn_write conn end_stream_header

  -- `writeToServer`; `none` is that of `write`.
  unfoldable pub write_to_server : Conn → Reader → Option (Sent Conn)
  unfolding announce_end
  write_to_server conn body = elim (write conn_write conn body) [
    | none ↦ none
    | some s ↦ some (announce_end s)
  ]
