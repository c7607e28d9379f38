-- ===== src/Client/WebsocketProxy/Response.antt =====
-- client/ws_proxy.go: the response side of `websocketConn`.
--
-- What `(*websocket.Conn).Read` returns is a list of messages and the error behind them, which comes
-- again. `w` is a writer of the HTTP server: its header, and the calls that reach it, with what it
-- answers to a `Write` as the parameter `write_error`. Go goes through a header in any order; here it is
-- that of the list.
pub mod Reading
pub mod Fields
pub mod Checks
use go_grpc_http.Common.{
  ℕ, zero, suc, ◌+◌, Bool, true, false, not, ◌&&◌, Option, none, some, List, [], ◌∷◌, ◌++◌, ltb,
  ◌==◌, if◌then◌else◌, length, drop, Bytes, codes,
}
use go_grpc_http.Errors.{
  Error, eof, wrong_message_type, not_metadata_frame, invalid_message, compressed_metadata,
  message_after_trailers, wrapped, Result, ok, err, panic, ◌>>=◌,
}
use go_grpc_http.Proto.{
  message_header_length, is_data_frame, is_metadata_frame, is_compressed, validate_grpc_frame,
}
use go_grpc_http.Http.{Header, values, set, add, or_empty}
use go_grpc_http.Trailers.{trailer_prefix}
use go_grpc_http.Http.Mime.{Mime, parsed, refused, read_mime_header}
use go_grpc_http.Server.WebsocketReader.{MessageType, text, binary}
use go_grpc_http.Grpcweb.ResponseWriter.{Call, wrote, wrote_header}

-- What `websocket.CloseStatus` says of an error.
pub data CloseStatus : Type 0 where
  no_status normal_closure going_away other_status : CloseStatus

-- The fields `w`, `errFlag` and `err`.
pub record WebsocketConn : Type 0 where
  pub header : Header
  pub calls : List Call
  pub err_flag : Bool
  pub err : Option Error

abbrev pub new_websocket_conn : Header → WebsocketConn
new_websocket_conn h = record { header = h; calls = []; err_flag = false; err = none }

-- The loops of `setHeader`.
unfoldable pub add_values : Header → Bytes → List Bytes → Header
add_values h k [] = h
add_values h k (v ∷ vs) = add_values (add h k v) k vs

abbrev pub response_key : Bool → Bytes → Bytes
response_key is_trailers k = if is_trailers then trailer_prefix ++ k else k

unfoldable pub add_header : Bool → Header → Header → Header
unfolding add_values
add_header is_trailers h [] = h
add_header is_trailers h ((k, vs) ∷ hdr) =
    add_header is_trailers (add_values h (response_key is_trailers k) vs) hdr

-- `setHeader`.
abbrev pub set_parsed : Bool → WebsocketConn → Mime → WebsocketConn × Option Error
set_parsed is_trailers c (refused e) = (c, some e)
set_parsed is_trailers c (parsed hdr ls) =
    (record c { header = add_header is_trailers c.header hdr }, none)

unfoldable pub set_header : WebsocketConn → Bytes → Bool → WebsocketConn × Option Error
set_header c msg is_trailers = set_parsed is_trailers c (read_mime_header eof (msg ++ codes "\r\n"))

-- `len(c.w.Header()["Grpc-Status"]) > 0`.
unfoldable pub has_status : WebsocketConn → Bool
unfolding values
has_status c = ltb 0 (length (or_empty (values c.header (codes "Grpc-Status"))))

-- The checks of `readHeader` on a message.
require_binary : MessageType → Result (Unit {0})
require_binary binary = ok tt
require_binary text = err wrong_message_type

require_metadata : Bool → Result (Unit {0})
require_metadata true = ok tt
require_metadata false = err not_metadata_frame

unfoldable pub check_header : MessageType → Bytes → Result (Unit {0})
unfolding require_binary require_metadata
check_header mt msg = do
  _ ← require_binary mt
  _ ← validate_grpc_frame msg
  is_metadata ← is_metadata_frame msg
  require_metadata is_metadata

-- A message of the body: data, or trailers.
pub data BodyMessage : Type 0 where
  data_message trailers_message : BodyMessage

-- The checks of `readFromServer` on a message of the body.
require_plain : Bool → Result BodyMessage
require_plain true = err compressed_metadata
require_plain false = ok trailers_message

classify_metadata : Bool → Bytes → Result BodyMessage
unfolding require_plain
classify_metadata false msg = err invalid_message
classify_metadata true msg = is_compressed msg >>= require_plain

classify : Bool → Bytes → Result BodyMessage
unfolding classify_metadata
classify true msg = ok data_message
classify false msg = is_metadata_frame msg >>= (λ m. classify_metadata m msg)

unfoldable pub check_body : MessageType → Bytes → Result BodyMessage
unfolding require_binary classify
check_body mt msg = do
  _ ← require_binary mt
  _ ← validate_grpc_frame msg
  is_data ← is_data_frame msg
  classify is_data msg

-- How `readFromServer` returns, or it panics: an index or a slice out of range.
abbrev pub Finished : Type 0
Finished = WebsocketConn × Result (Unit {0})

abbrev pub returned : WebsocketConn × Option Error → Finished
returned (c, none) = (c, ok tt)
returned (c, some e) = (c, err e)

abbrev pub wrap_result : Bytes → Result (Unit {0}) → Result (Unit {0})
wrap_result msg (ok a) = ok a
wrap_result msg (err e) = err (wrapped msg e)
wrap_result msg panic = panic

-- `msg[n:]`, which panics where the message is shorter.
unfoldable pub slice_from : ℕ → Bytes → Result Bytes
slice_from n msg = if ltb (length msg) n then panic else ok (drop n msg)

-- The text behind the message's header, as the header or the trailers of the response.
abbrev pub set_sliced : WebsocketConn → Bool → Result Bytes → Finished
set_sliced c is_trailers (ok fields) = returned (set_header c fields is_trailers)
set_sliced c is_trailers (err e) = (c, err e)
set_sliced c is_trailers panic = (c, panic)

-- An error of the connection behind the trailers: a normal closure, and io.EOF, end the response.
abbrev pub after_trailers : CloseStatus → Error → Result (Unit {0})
after_trailers normal_closure e = ok tt
after_trailers going_away e = ok tt
after_trailers no_status eof = ok tt
after_trailers no_status e = err (wrapped (codes "non-EOF error while reading response body") e)
after_trailers other_status e = err (wrapped (codes "non-EOF error while reading response body") e)

abbrev pub go_on : Finished → (WebsocketConn → Finished) → Finished
go_on (c, ok _) next = next c
go_on (c, err e) next = (c, err e)
go_on (c, panic) next = (c, panic)

-- `readHeader` on the first message.
abbrev pub header_read : WebsocketConn → Bytes → Result (Unit {0}) → Finished
header_read c msg (ok _) = set_sliced c false (slice_from message_header_length msg)
header_read c msg (err e) = (c, err e)
header_read c msg panic = (c, panic)

unfoldable pub read_header : List (MessageType × Bytes) → Error → WebsocketConn → Finished
unfolding slice_from
read_header [] e c = (c, err e)
read_header ((mt, msg) ∷ ms) e c = header_read c msg (check_header mt msg)

abbrev pub rest_of : List (MessageType × Bytes) → List (MessageType × Bytes)
rest_of [] = []
rest_of (m ∷ ms) = ms

-- `c.w.WriteHeader(http.StatusOK)`.
abbrev pub write_status : WebsocketConn → WebsocketConn
write_status c = record c { calls = c.calls ++ wrote_header 200 c.header ∷ [] }

module _ (write_error : List Call → Bytes → Option Error) (close_status : Error → CloseStatus) where
  -- `c.w.Write(msg)`.
  write_data : WebsocketConn → Bytes → WebsocketConn × Option Error
  write_data c msg = (record c { calls = c.calls ++ wrote msg ∷ [] }, write_error c.calls msg)

  -- An error of the connection, with the variable `dataExpected`.
  read_failed : Bool → Error → Result (Unit {0})
  read_failed true e = err (wrapped (codes "reading response body") e)
  read_failed false e = after_trailers (close_status e) e

  -- A message of the body that is expected.
  dispatch :
      WebsocketConn → Bytes → Result BodyMessage → (Bool → WebsocketConn → Finished) → Finished
  unfolding write_data slice_from
  dispatch c msg (ok data_message) next = go_on (returned (write_data c msg)) (next true)
  dispatch c msg (ok trailers_message) next =
      go_on (set_sliced c true (slice_from message_header_length msg)) (next false)
  dispatch c msg (err e) next = (c, err e)
  dispatch c msg panic next = (c, panic)

  -- The loop of `readFromServer`, with `dataExpected`.
  unfoldable pub read_body : Bool → List (MessageType × Bytes) → Error → WebsocketConn → Finished
  unfolding read_failed dispatch
  read_body data_expected [] e c = (c, read_failed data_expected e)
  read_body false (m ∷ ms) e c = (c, err message_after_trailers)
  read_body true ((mt, msg) ∷ ms) e c =
      dispatch c msg (check_body mt msg) (λ expected c'. read_body expected ms e c')

  -- `readFromServer` behind `readHeader`.
  behind_header : List (MessageType × Bytes) → Error → Finished → Finished
  unfolding read_body
  behind_header ms e (c, ok _) =
      if has_status c then (c, ok tt) else read_body true ms e (write_status c)
  behind_header ms e (c, err x) = (c, err (wrapped (codes "reading response header") x))
  behind_header ms e (c, panic) = (c, panic)

  unfoldable pub read_from_server : List (MessageType × Bytes) → Error → WebsocketConn → Finished
  unfolding read_header behind_header
  read_from_server ms e c = behind_header (rest_of ms) e (read_header ms e c)
