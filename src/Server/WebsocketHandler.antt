-- ===== src/Server/WebsocketHandler.antt =====
-- server/server.go: `handleGRPCWS`, which serves a gRPC request over a WebSocket.
--
-- The gRPC server and the WebSocket library are code outside the repository: the calls that the server
-- makes of its `http.ResponseWriter`, what `websocket.Accept` comes to, the connection's operations, and
-- the bytes that the read end of the `io.Pipe` gives are parameters. The goroutine that runs `Write` reads
-- only from the pipe, so its run is told after that of the gRPC server.
pub mod Served
use go_grpc_http.Common.{ℕ, ◌*◌, Option, none, some, List, [], ◌∷◌, ◌++◌, Bytes}
use go_grpc_http.Size.{mb}
use go_grpc_http.Errors.{Error}
use go_grpc_http.Io.{Reader}
use go_grpc_http.Http.{Header, Request}
use go_grpc_http.Grpcwebsocket
use go_grpc_http.Grpcwebsocket.{Sent}
use go_grpc_http.Server.Handler.{websocket_request}
use go_grpc_http.Server.WebsocketReader.{Arrival, WsReader}
use go_grpc_http.Server.WebsocketWriter.{
  WsResponseWriter, new_ws_response_writer, write_header, write, close,
}

-- The limit of `SetReadLimit`: the library fails the read of a longer message.
abbrev pub read_limit : ℕ
read_limit = 64 * mb

-- What `websocket.Accept` returns.
pub data Accepted (Conn : Type 0) : Type 0 where
  accepted : Conn → Accepted Conn
  rejected : Error → Accepted Conn

-- A use of the `http.ResponseWriter`: the map of its header is changed, or a method is called.
pub data ServerCall : Type 0 where
  sets_header : Header → ServerCall
  writes_header : ℕ → ServerCall
  writes : Bytes → ServerCall

-- A `Close` of the connection. Only the first one counts.
pub data Close : Type 0 where
  internal_error : Error → Close
  normal_closure : Close

-- What the handler comes to. Where `Write` fails, the connection is closed with its error, but the pipe
-- is read no further: whether the gRPC server and the handler get past their next write is left open.
pub data Handled (Conn : Type 0) : Type 0 where
  refused : Error → Handled Conn
  finished : Conn → List Close → Handled Conn
  write_failed : Conn → Close → Handled Conn
  -- No Go value: `Write` does not return, or panics.
  no_result : Handled Conn

-- `newWebSocketReader`, for what the connection will give.
abbrev pub new_body : List Arrival → WsReader
new_body arrivals = record { curr_msg = []; err = none; arrivals = arrivals }

-- `if err := grpcResponseWriter.Close(); err != nil`
unfoldable pub close_on_error : Option Error → List Close
close_on_error none = []
close_on_error (some e) = internal_error e ∷ []

-- The end of the goroutine, and what the handler does behind it.
unfoldable pub joined : {Conn : Type 0} → Option (Sent Conn) → Option Error → Handled Conn
unfolding close_on_error
joined none e = no_result
joined (some (conn, some x)) e = write_failed conn (internal_error x)
joined (some (conn, none)) e = finished conn (close_on_error e ++ normal_closure ∷ [])

module _ (pipe_error : List Bytes → Bytes → Option Error) where
  unfoldable pub run_call : WsResponseWriter → ServerCall → WsResponseWriter
  unfolding write write_header
  run_call w (sets_header h) = record w { header = h }
  run_call w (writes_header status) = write_header w status
  run_call w (writes p) = (write pipe_error w p).0

  unfoldable pub run_calls : WsResponseWriter → List ServerCall → WsResponseWriter
  unfolding run_call
  run_calls w [] = w
  run_calls w (c ∷ cs) = run_calls (run_call w c) cs

module _ {Conn : Type 0} (conn_write : Conn → Bytes → Sent Conn) (set_read_limit : Conn → ℕ → Conn)
    (incoming : Conn → List Arrival) (pipe : List Bytes → Reader)
    (pipe_error : List Bytes → Bytes → Option Error)
    (serve_http : Request → WsReader → List ServerCall) where
  -- What is done with an accepted connection.
  unfoldable pub serve_accepted : Request → Conn → Handled Conn
  unfolding run_calls close joined websocket_request
  serve_accepted req conn =
      let limited = set_read_limit conn read_limit in
      let calls = serve_http (websocket_request req) (new_body (incoming limited)) in
      let (w, e) = close pipe_error (run_calls pipe_error new_ws_response_writer calls) in
      joined (Grpcwebsocket.write conn_write limited (pipe w.written)) e

  unfoldable pub handle_grpc_ws : Request → Accepted Conn → Handled Conn
  unfolding serve_accepted
  handle_grpc_ws req (rejected e) = refused e
  handle_grpc_ws req (accepted conn) = serve_accepted req conn
