-- ===== src/Client/WebsocketProxy/Serving.antt =====
-- client/ws_proxy.go: `ServeHTTP` of the WebSocket proxy, and the errors of a connection.
--
-- `websocket.Dial` is code of the library: `dialed` says what comes of it, with the messages of the
-- connection and the error behind them. The two directions of a connection share only the error that is
-- set first: `write_result` is what `writeToServer` returned in its goroutine, and `write_first` says
-- whether its error is set before that of `readFromServer`. The text of an error is as in
-- Client.Proxy.Failure; the URL in that of a failed dial is left out.
pub mod Errors
use go_grpc_http.Common.{
  ℕ, ◌*◌, Bool, true, false, not, ◌&&◌, ◌||◌, Option, none, some, List, [], ◌∷◌, ◌++◌, ◌==◌,
  if◌then◌else◌, Bytes, codes,
}
use mathlib.Core.Option
use go_grpc_http.Size.{mb}
use go_grpc_http.Errors.{Error, wrapped, with_response, Result, error_of}
use go_grpc_http.Http.{Header, get, set, Request}
use go_grpc_http.Strings.{has_prefix}
use go_grpc_http.Server.WebsocketReader.{MessageType}
use go_grpc_http.Grpcweb.ResponseWriter.{Call, wrote_header}
use go_grpc_http.Client.Proxy.Failure.{Answer, unavailable, error_message, write_error}
use go_grpc_http.Client.WebsocketProxy.Response.{
  CloseStatus, WebsocketConn, new_websocket_conn, has_status, Finished, write_status,
  read_from_server,
}

-- `setError`: the first error stays.
unfoldable pub set_error : WebsocketConn → Error → WebsocketConn
set_error c e = if c.err_flag then c else record c { err_flag = true; err = some e }

abbrev pub set_result : WebsocketConn → Option Error → WebsocketConn
set_result c none = c
set_result c (some e) = set_error c e

-- The two trailers that `writeErrorIfNecessary` sets behind the body.
unfoldable pub transport_trailers : Header → Bytes → Header
unfolding set
transport_trailers h msg =
    set (set h (codes "Trailer:Grpc-Status") unavailable) (codes "Trailer:Grpc-Message") msg

-- What comes of `websocket.Dial`: an error, and that of the server's response if there is one, or a
-- connection: under a read limit, it gives messages and the error behind them.
pub data Dialed : Type 0 where
  unreachable : Error → Option Error → Dialed
  connected : (ℕ → List (MessageType × Bytes) × Error) → Dialed

-- The limit of `SetReadLimit` on the client's connection.
abbrev pub response_read_limit : ℕ
response_read_limit = 64 * mb

abbrev pub dial_error : Error → Option Error → Error
dial_error e none = e
dial_error e (some r) = with_response e r

module _ (error_text : Error → Bytes) where
  abbrev pub error_written : WebsocketConn → Option Error → Option WebsocketConn
  error_written c none = some c
  error_written c (some e) =
      if has_status c
      then some c
      else Option.map (λ msg. record (write_status c) { header = transport_trailers c.header msg })
          (error_message error_text e)

  -- `writeErrorIfNecessary`.
  unfoldable pub write_error_if_necessary : WebsocketConn → Option WebsocketConn
  unfolding transport_trailers error_message
  write_error_if_necessary c = error_written c c.err

  -- `ServeHTTP` behind the two directions; a panic is no error.
  unfoldable pub settle : Bool → Option Error → Finished → Option WebsocketConn
  unfolding set_error write_error_if_necessary
  settle write_first write_result (c, read_result) = write_error_if_necessary (
      if write_first
      then set_result (set_result c write_result) (error_of read_result)
      else set_result (set_result c (error_of read_result)) write_result)

abbrev pub answer_of : WebsocketConn → Answer
answer_of c = (c.header, c.calls)

-- The request that is dialed.
abbrev pub dial_request : Bool → Bytes → Request → Request
dial_request insecure endpoint req = record req {
  scheme = if insecure then codes "http" else codes "https";
  host = endpoint;
}

module _ (error_text : Error → Bytes) (write_failure : List Call → Bytes → Option Error)
    (close_status : Error → CloseStatus) where
  serve_dialed : Dialed → Bool → Option Error → Header → Option Answer
  unfolding settle write_error read_from_server
  serve_dialed (unreachable e response) write_first write_result header =
      write_error error_text header
        (wrapped (codes "connecting to gRPC endpoint") (dial_error e response))
  serve_dialed (connected incoming) write_first write_result header =
      let (msgs, e) = incoming response_read_limit in
      Option.map answer_of (
        settle error_text write_first write_result
          (read_from_server write_failure close_status msgs e (new_websocket_conn header)))

  -- `ServeHTTP`, on a writer with this header.
  unfoldable pub serve_http :
      Bool → Bytes → (Request → Dialed) → Bool → Option Error → Header → Request → Option Answer
  unfolding serve_dialed get has_prefix
  serve_http insecure endpoint dialed write_first write_result header req =
      if not (req.proto_major == 2)
        || not (has_prefix (get req.header (codes "Content-Type")) (codes "application/grpc"))
      then some (header, wrote_header 415 header ∷ [])
      else serve_dialed (dialed (dial_request insecure endpoint req)) write_first write_result
          header
