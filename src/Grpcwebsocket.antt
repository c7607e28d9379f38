-- ===== src/Grpcwebsocket.antt =====
-- internal/grpcwebsocket/write.go: `Write` sends a stream of gRPC messages over a WebSocket, one frame
-- to a message. The connection is code of nhooyr.io/websocket: a state with an operation `conn_write`,
-- which both the client and the server call with binary messages.
pub mod Splitting
pub mod Sending
use go_grpc_http.Common.{ℕ, zero, suc, ◌+◌, Option, none, some, List, [], ◌∷◌, ◌++◌, length, Bytes}
use go_grpc_http.Errors.{Error, eof, unexpected_eof, Result, ok, err, panic}
use go_grpc_http.Io.{Reader, Transfer, copy_n, copy_n_full}
use go_grpc_http.Proto.{message_header_length, parse_message_header}

-- The connection behind a call that sends, and the call's error.
abbrev pub Sent : Type 0 → Type 0
Sent Conn = Conn × Option Error

-- The error of a payload that could not be read in full.
abbrev pub payload_error : Error → Error
payload_error eof = unexpected_eof
payload_error e = e

-- io.EOF in front of a header is the regular end.
abbrev pub header_error : Error → Option Error
header_error eof = none
header_error e = some e

-- How a round of the loop ends: `Write` returns, or the next round begins. `panicked` is an index out
-- of range.
pub data Round (Conn : Type 0) : Type 0 where
  stop : Sent Conn → Round Conn
  go : Conn → Reader → Round Conn
  panicked : Round Conn

-- Room for every message of the reader: each has five bytes at least.
abbrev pub total : Reader → ℕ
total [] = 0
total ((chunk, _) ∷ r) = length chunk + total r

module _ {Conn : Type 0} (conn_write : Conn → Bytes → Sent Conn) where
  sent : Sent Conn → Reader → Round Conn
  sent (conn, none) r = go conn r
  sent (conn, some e) r = stop (conn, some e)

  payload_read : Conn → Bytes → Transfer → Round Conn
  payload_read conn header t = elim t.error [
    | some e ↦ stop (conn, some (payload_error e))
    | none ↦ sent (conn_write conn (header ++ t.bytes)) t.rest
  ]

  header_parsed : Conn → Transfer → Result (ℕ × ℕ) → Round Conn
  header_parsed conn header (ok (_, n)) = payload_read conn header.bytes (copy_n n header.rest)
  header_parsed conn header (err e) = stop (conn, some e)
  header_parsed conn header panic = panicked

  header_read : Conn → Transfer → Round Conn
  header_read conn header = elim header.error [
    | some e ↦ stop (conn, header_error e)
    | none ↦ header_parsed conn header (parse_message_header header.bytes)
  ]

  -- The body of the loop.
  unfoldable pub round : Conn → Reader → Round Conn
  unfolding header_read header_parsed payload_read sent
  round conn r = header_read conn (copy_n_full message_header_length r)

  -- The loop, on fuel: `none` is no Go value, and means that the fuel ran out or a panic.
  unfoldable pub write_loop : ℕ → Conn → Reader → Option (Sent Conn)
  write_loop zero conn r = none
  write_loop (suc fuel) conn r = elim (round conn r) [
    | stop s ↦ some s
    | go conn' r' ↦ write_loop fuel conn' r'
    | panicked ↦ none
  ]

  unfoldable pub write : Conn → Reader → Option (Sent Conn)
  unfolding write_loop round
  write conn r = write_loop (suc (total r)) conn r
