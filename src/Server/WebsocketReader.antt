-- ===== src/Server/WebsocketReader.antt =====
-- server/websocket_reader.go: `wsReader` hands out the payload of a gRPC-WebSocket request, one message
-- of the WebSocket after the other.
--
-- What the goroutine `readerLoop` gets from `(*websocket.Conn).Reader` is a list of arrivals. An arrival
-- is one ready case of the `select` in `doRead`: the loop's result, or the end of the read context.
pub mod Delivery
pub mod Loop
use go_grpc_http.Common.{
  ℕ, zero, suc, Bool, true, false, not, Option, none, some, List, [], ◌∷◌, ◌++◌, ◌==◌,
  if◌then◌else◌, length, take, drop, Bytes, codes,
}
use go_grpc_http.Errors.{
  Error, eof, not_data_frame, wrong_message_type, wrapped, Result, ok, err, panic, ◌>>=◌,
}
use go_grpc_http.Io.{Reader, Transfer, read_all}
use go_grpc_http.Proto.{validate_grpc_frame, is_end_of_stream, is_data_frame}

-- The types of a WebSocket message.
pub data MessageType : Type 0 where
  text binary : MessageType

-- What `(*websocket.Conn).Reader` returned to the loop.
pub data Incoming : Type 0 where
  opened : MessageType → Reader → Incoming
  broken : Error → Incoming

-- `readerResult`: a reader, or an error.
pub data ReaderResult : Type 0 where
  has_reader : Reader → ReaderResult
  has_error : Error → ReaderResult

-- What `readerLoop` makes of it.
unfoldable pub forward : Incoming → ReaderResult
forward (opened binary r) = has_reader r
forward (opened text r) = has_error wrong_message_type
forward (broken e) = has_error e

pub data Arrival : Type 0 where
  result : Incoming → Arrival
  -- `CloseRead` was called or the request's context ended, with this error.
  cancelled : Error → Arrival

-- `currMsg`, the sticky `err`, and what is still to arrive.
pub record WsReader : Type 0 where
  pub curr_msg : Bytes
  pub err : Option Error
  pub arrivals : List Arrival

-- What a call of `Read` comes to. It blocks where nothing arrives any more.
pub data Outcome : Type 0 where
  returns : WsReader → Bytes → Option Error → Outcome
  blocks : Outcome
  panics : Outcome

-- `if !IsDataFrame(msg)`
require_data : Bytes → Result Bool
require_data msg = do
  is_data ← is_data_frame msg
  if not is_data then err not_data_frame else ok false

-- The checks on a whole message; `true` is the end of the stream.
unfoldable pub check_message : Bytes → Result Bool
unfolding require_data
check_message msg = do
  _ ← validate_grpc_frame msg
  if is_end_of_stream msg then ok true else require_data msg

-- `n := copy(p, r.currMsg)` and the slice behind it, with `len(p) == size`.
unfoldable pub copy_out : ℕ → WsReader → Outcome
copy_out size s = returns (record s { curr_msg = drop size s.curr_msg }) (take size s.curr_msg) none

-- A failing call returns no bytes, and `Read` keeps the error.
abbrev pub failing : WsReader → Error → Outcome
failing s e = returns (record s { err = some e }) [] (some e)

-- `doRead` behind the checks, and behind the read of a message.
unfoldable pub message_checked : ℕ → WsReader → Bytes → Result Bool → Outcome
message_checked size s msg (err e) = failing s e
message_checked size s msg panic = panics
message_checked size s msg (ok true) = failing s eof
message_checked size s msg (ok false) = copy_out size (record s { curr_msg = msg })

message_read : ℕ → WsReader → Transfer → Outcome
message_read size s t = elim t.error [
  | some e ↦ failing s e
  | none ↦ message_checked size s t.bytes (check_message t.bytes)
]

-- `doRead` behind the `select`.
pub arrived : ℕ → WsReader → Arrival → Outcome
arrived size s (cancelled e) = failing s (wrapped (codes "reading websocket message") e)
arrived size s (result i) = elim (forward i) [
  | has_error e ↦ failing s e
  | has_reader r ↦ message_read size s (read_all r)
]

-- `doRead`, on the current message and on the arrivals.
do_read : ℕ → WsReader → Bytes → List Arrival → Outcome
do_read size s (b ∷ bs) as' = copy_out size s
do_read size s [] [] = blocks
do_read size s [] (a ∷ as') = arrived size (record s { arrivals = as' }) a

-- `Read(p)` with `len(p) == size`.
unfoldable pub read : ℕ → WsReader → Outcome
unfolding do_read arrived message_read message_checked copy_out forward
read size s = elim s.err [
  | some e ↦ returns s [] (some e)
  | none ↦ do_read size s s.curr_msg s.arrivals
]
