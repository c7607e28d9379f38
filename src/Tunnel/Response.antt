-- ===== src/Tunnel/Response.antt =====
-- A response through the WebSocket: server/websocket_writer.go and internal/grpcwebsocket/write.go send it,
-- client/ws_proxy.go reads it.
use go_grpc_http.Common.{
  ℕ, true, false, Option, none, some, List, [], ◌∷◌, ◌++◌, length, Bytes, codes, ◌≡◌, refl, sym, ap,
  ◌∙◌, subst, All, map,
}
use go_grpc_http.Errors.{Error, eof, ok}
use go_grpc_http.Io.{Reader}
use go_grpc_http.Io.Delivery.{Delivers}
use go_grpc_http.Proto.{IsU32}
use go_grpc_http.Proto.Frames.{frame}
use go_grpc_http.Http.{Header, values, or_empty, all_token}
use go_grpc_http.Http.Wire.{write_header_bytes}
use go_grpc_http.Http.Mime.Sent.{sent, IsField}
use go_grpc_http.Http.Mime.Sorting.{IsMap}
use go_grpc_http.Http.Mime.RoundTrip.{IsCanonical, read_mime_header-write_header_bytes}
use go_grpc_http.Grpcweb.Consume.Framing.{AreDataFrames, stream}
use go_grpc_http.Grpcweb.ResponseWriter.{Call, wrote_header}
use go_grpc_http.Grpcweb.ResponseWriter.Frames.{concat}
use go_grpc_http.Grpcwebsocket.{Sent}
use go_grpc_http.Grpcwebsocket
use go_grpc_http.Grpcwebsocket.Sending.{send_all}
use go_grpc_http.Server.WebsocketWriter.{new_ws_response_writer, response_header, close_trailers}
use go_grpc_http.Server.WebsocketWriter.Frames.{
  header_block, trailer_block, response, response-write,
}
use go_grpc_http.Client.WebsocketProxy.Response.{
  CloseStatus, normal_closure, new_websocket_conn, WebsocketConn, add_header, has_status,
  read_from_server,
}
use go_grpc_http.Trailers.{trailer_prefix}
use go_grpc_http.Client.WebsocketProxy.Response.Reading.{binaries, writes_of, read_from_server_lem}
use go_grpc_http.Client.WebsocketProxy.Response.Fields.{
  add_header-values, add_header-token, prefixed_None,
}
use go_grpc_http.Tunnel.{frames, send_all-delivered}

-- The trailers that the server sends, with the header at `WriteHeader` and that at `Close`.
abbrev pub trailers_of : Header → Header → Header
trailers_of h hdr =
    (close_trailers (record new_ws_response_writer {
      header = hdr;
      announced_trailers = values h (codes "Trailer");
    })).1

no_status_yet :
    (h : Header)
    → or_empty (values h (codes "Grpc-Status")) ≡ []
    → has_status (new_websocket_conn h) ≡ false
unfolding has_status
no_status_yet h e = rw e refl

-- What the client's header must be: the server's fields, and the trailers under keys with the prefix.
abbrev pub Carries : Header → Header → Header → Type 0
Carries h t got =
    ((k : Bytes) → all_token k ≡ true → or_empty (values got k) ≡ map sent (or_empty (values h k)))
    × ((k : Bytes) → or_empty (values got (trailer_prefix ++ k)) ≡ map sent (or_empty (values t k)))

carried :
    (h t h' t' : Header)
    → All IsField h
    → IsCanonical h'
    → IsCanonical t'
    → ((k : Bytes) → or_empty (values h' k) ≡ map sent (or_empty (values h k)))
    → ((k : Bytes) → or_empty (values t' k) ≡ map sent (or_empty (values t k)))
    → Carries h t (add_header true (add_header false [] h') t')
unfolding values
carried h t h' t' fields c c' same same' = (
  λ k token.
      add_header-token (add_header false [] h') t' k token
      ∙ add_header-values false [] h' k c
      ∙ same k,
  λ k.
      add_header-values true (add_header false [] h') t' k c'
      ∙ ap (λ vs. vs ++ or_empty (values t' k))
          (add_header-values false [] h' (trailer_prefix ++ k) c
            ∙ same (trailer_prefix ++ k)
            ∙ ap (λ o. map sent (or_empty o)) (prefixed_None h k fields))
      ∙ same' k,
)

-- What the client's side does with the messages of a connection.
abbrev pub ReadsResponse :
    (Error → CloseStatus)
    → (List Call → Bytes → Option Error)
    → Header
    → Header
    → List (ℕ × Bytes)
    → Error
    → List Bytes
    → Type 0
ReadsResponse close_status write_error h t ms closing msgs =
    (c : WebsocketConn) × (sent_header : Header) × (read_from_server write_error close_status
        (binaries msgs) closing (new_websocket_conn [])
      ≡ (c, ok tt))
    × (c.calls ≡ wrote_header 200 sent_header ∷ writes_of (frames ms))
    × ((k : Bytes) → or_empty (values sent_header k) ≡ map sent (or_empty (values h k)))
    × Carries h t c.header

module _ {Conn : Type 0} (conn_write : Conn → Bytes → Sent Conn) (delivered : Conn → List Bytes)
    (write_delivers : (c : Conn) (m : Bytes)
      → (conn_write c m).1 ≡ none
      → delivered (conn_write c m).0 ≡ delivered c ++ m ∷ [])
    (close_status : Error → CloseStatus) where
  -- The client's side, on the messages that the server's side sends.
  client_reads :
      (write_error : List Call → Bytes → Option Error) (h t : Header) (ms : List (ℕ × Bytes))
      (closing : Error)
      → ((cs : List Call) (bs : Bytes) → write_error cs bs ≡ none)
      → IsU32 (length (write_header_bytes h))
      → IsU32 (length (write_header_bytes t))
      → IsMap h
      → All IsField h
      → IsMap t
      → All IsField t
      → AreDataFrames ms
      → or_empty (values h (codes "Grpc-Status")) ≡ []
      → close_status closing ≡ normal_closure
      → ReadsResponse close_status write_error h t ms closing
          (frame 128 (write_header_bytes h) ∷ frames ms ++ frame 128 (write_header_bytes t) ∷ [])
  unfolding values
  client_reads write_error h t ms closing never small small' map_h fields_h map_t fields_t frames_ok
        none_yet closed =
      let (h', parses, canonical, same) =
        read_mime_header-write_header_bytes eof h fields_h map_h in
      let (t', parses', canonical', same') =
        read_mime_header-write_header_bytes eof t fields_t map_t in
      (
        record (new_websocket_conn (add_header true (add_header false [] h') t')) {
          calls = wrote_header 200 (add_header false [] h') ∷ writes_of (frames ms);
        },
        add_header false [] h',
        read_from_server_lem write_error close_status never (write_header_bytes h)
            (write_header_bytes t) ms closing (new_websocket_conn []) small small' frames_ok parses
            parses' closed
            (no_status_yet (add_header false [] h') (
              add_header-values false [] h' (codes "Grpc-Status") canonical
              ∙ same (codes "Grpc-Status")
              ∙ ap (map sent) none_yet)),
        refl,
        λ k. add_header-values false [] h' k canonical ∙ same k,
        carried h t h' t' fields_h canonical canonical' same same',
      )

  -- The server writes a response through a pipe that refuses no write: a header without a status, data
  -- frames in any pieces, and trailers; header and trailers are maps of canonical tokens with values of
  -- header bytes, in at most 2^32 - 1 bytes each. The connection is new, and a write to it that returns
  -- no error adds its message. Then `Write` on the pipe's bytes returns, and if it returns no error, the
  -- client that reads the messages, with a normal closure behind them and a writer that does not fail,
  -- returns no error. It passes on the status 200 with the server's header and then the data frames, one
  -- to a write, and has the trailers under the keys with the prefix of trailers: the same values under
  -- every key, in their order, each without the blanks at its ends.
  pub response-read_from_server :
      (conn : Conn) (pipe_error : List Bytes → Bytes → Option Error)
      (write_error : List Call → Bytes → Option Error) (h : Header) (status : ℕ) (bufs : List Bytes)
      (hdr : Header) (ms : List (ℕ × Bytes)) (closing : Error) {r : Reader}
      → delivered conn ≡ []
      → ((xs : List Bytes) (p : Bytes) → pipe_error xs p ≡ none)
      → ((cs : List Call) (bs : Bytes) → write_error cs bs ≡ none)
      → IsU32 (length (header_block h))
      → IsU32 (length (trailer_block h hdr))
      → IsMap (response_header h)
      → All IsField (response_header h)
      → IsMap (trailers_of h hdr)
      → All IsField (trailers_of h hdr)
      → concat bufs ≡ stream ms
      → AreDataFrames ms
      → or_empty (values (response_header h) (codes "Grpc-Status")) ≡ []
      → close_status closing ≡ normal_closure
      → Delivers r (concat (response pipe_error h status bufs hdr).0.written) eof
      → (s : Sent Conn) × (Grpcwebsocket.write conn_write conn r ≡ some s)
        × (s.1 ≡ none
            → ReadsResponse close_status write_error
                (response_header h)
                (trailers_of h hdr)
                ms
                closing
                (delivered s.0))
  response-read_from_server conn pipe_error write_error h status bufs hdr ms closing fresh never
        never' small small' map_h fields_h map_t fields_t e frames_ok none_yet closed d =
      let msgs = frame 128 (header_block h) ∷ frames ms ++ frame 128 (trailer_block h hdr) ∷ [] in
      (
        send_all conn_write conn msgs none,
        response-write conn_write conn pipe_error h status bufs hdr ms never small small' e
            frames_ok d,
        λ fine.
            subst
              (ReadsResponse close_status write_error (response_header h) (trailers_of h hdr) ms
                closing)
              (sym (
                send_all-delivered conn_write delivered write_delivers conn msgs fine
                ∙ ap (λ l. l ++ msgs) fresh))
              (client_reads write_error (response_header h) (trailers_of h hdr) ms closing never'
                small small' map_h fields_h map_t fields_t frames_ok none_yet closed),
      )
