-- ===== src/Server/WebsocketWriter.antt =====
-- server/websocket_writer.go: the writer that turns a gRPC response into the frames of a WebSocket.
--
-- The writes into the `io.Pipe` are kept in a list; the pipe's answer to a write is the parameter
-- `write_error`, on the writes before it. A write that the pipe refuses is kept too.
pub mod Frames
use go_grpc_http.Common.{
  ℕ, ◌%◌, ◌^◌, Bool, true, false, Option, none, some, List, [], ◌∷◌, ◌++◌, if◌then◌else◌, length,
  Bytes, codes,
}
use go_grpc_http.Errors.{Error}
use go_grpc_http.Proto.{metadata_flags, make_message_header}
use go_grpc_http.Http.{Header, values, del}
use go_grpc_http.Http.Wire.{write_header_bytes}
use go_grpc_http.Strings.{shallow_clone}
use go_grpc_http.Trailers.{trailers_only, split_trailers}

pub record WsResponseWriter : Type 0 where
  pub written : List Bytes
  pub closed : Bool
  pub header : Header
  pub header_written : Bool
  pub announced_trailers : Option (List Bytes)

-- `newWebSocketResponseWriter`.
abbrev pub new_ws_response_writer : WsResponseWriter
new_ws_response_writer = record {
  written = [];
  closed = false;
  header = [];
  header_written = false;
  announced_trailers = none;
}

-- A write into the pipe.
abbrev pub piped : WsResponseWriter → Bytes → WsResponseWriter
piped w p = record w { written = w.written ++ p ∷ [] }

-- The header of the frame with these bytes of metadata; the length is converted to a uint32.
abbrev pub metadata_header : Bytes → Bytes
metadata_header buf = make_message_header metadata_flags (length buf % 2 ^ 32)

-- What `WriteHeader` leaves of the header.
unfoldable pub response_header : Header → Header
response_header h = del (del h (codes "Trailer")) (codes "Content-Length")

-- The header as `WriteHeader` sends it; the status is not sent.
unfoldable pub write_header : WsResponseWriter → ℕ → WsResponseWriter
write_header w status =
    let buf = write_header_bytes (response_header w.header) in
    if w.header_written then w else record (piped (piped w (metadata_header buf)) buf) {
      header = response_header w.header;
      header_written = true;
      announced_trailers = shallow_clone (values w.header (codes "Trailer"));
    }

-- What `Close` leaves of the header, and the trailers that it sends.
unfoldable pub close_trailers : WsResponseWriter → Header × Header
close_trailers w = elim w.announced_trailers [
  | none ↦ let h = trailers_only w.header in (h, h)
  | some announced ↦ split_trailers w.header announced
]

module _ (write_error : List Bytes → Bytes → Option Error) where
  unfoldable pub write_piped : WsResponseWriter → Bytes → WsResponseWriter × Option Error
  write_piped w p = (piped w p, write_error w.written p)

  unfoldable pub write : WsResponseWriter → Bytes → WsResponseWriter × Option Error
  unfolding write_piped
  write w p = write_piped (if w.header_written then w else write_header w 200) p

  -- The two writes of `Close`.
  unfoldable pub write_trailers : WsResponseWriter → Bytes → WsResponseWriter × Option Error
  unfolding write_piped
  write_trailers w buf =
      let (w', e) = write_piped w (metadata_header buf) in
      elim e [ some x ↦ (w', some x) | none ↦ write_piped w' buf ]

  unfoldable pub close : WsResponseWriter → WsResponseWriter × Option Error
  unfolding write_trailers
  close w =
      let (hdr, trailers) = close_trailers w in
      let (w', e) = write_trailers (record w { header = hdr }) (write_header_bytes trailers) in
      (record w' { closed = true }, e)
