-- ===== src/Server/WebsocketHandler/Served.antt =====
-- server/server.go: what the client gets from `handleGRPCWS`.
use go_grpc_http.Common.{
  ℕ, suc, ◌≤◌, ◌<◌, arith, Option, none, some, List, [], ◌∷◌, ◌++◌, length, Bytes, codes, ◌≡◌, refl,
  sym, ap, ◌∙◌, subst, All, map, ◌⊎◌, inl, inr,
}
use go_grpc_http.Errors.{Error, eof}
use go_grpc_http.Io.{Reader}
use go_grpc_http.Io.Delivery.{Delivers}
use go_grpc_http.Proto.{IsU32, end_stream_header}
use go_grpc_http.Proto.Frames.{frame}
use go_grpc_http.Http.{Header, values, or_empty, Request}
use go_grpc_http.Http.Mime.Sent.{IsField}
use go_grpc_http.Http.Mime.Sorting.{IsMap}
use go_grpc_http.Grpcweb.Consume.Framing.{AreDataFrames, stream}
use go_grpc_http.Grpcweb.ResponseWriter.{Call}
use go_grpc_http.Grpcweb.ResponseWriter.Frames.{concat}
use go_grpc_http.Grpcwebsocket.{Sent}
use go_grpc_http.Grpcwebsocket
use go_grpc_http.Grpcwebsocket.Sending.{send_all}
use go_grpc_http.Server.Handler.{websocket_request}
use go_grpc_http.Server.WebsocketReader.{Arrival, WsReader}
use go_grpc_http.Server.WebsocketReader.Delivery.{pending, drain, drain-Pending}
use go_grpc_http.Server.WebsocketWriter.{
  WsResponseWriter, new_ws_response_writer, write_header, write, close, response_header,
}
use go_grpc_http.Server.WebsocketWriter.Frames.{
  run_writes, response, response_written, response-write, header_block, trailer_block,
}
use go_grpc_http.Client.WebsocketProxy.Response.{CloseStatus}
use go_grpc_http.Client.WebsocketProxy.Response
use go_grpc_http.Tunnel.{arrivals_of, server_reader, frames, Sends-frames}
use go_grpc_http.Tunnel.Response.{trailers_of, ReadsResponse, response-read_from_server}
use go_grpc_http.Server.WebsocketHandler.{
  read_limit, accepted, ServerCall, sets_header, writes_header, writes, internal_error,
  normal_closure, Handled, finished, write_failed, new_body, close_on_error, joined, run_call,
  run_calls, serve_accepted, handle_grpc_ws,
}

-- A unary or streaming response: the header, the status, the messages, and the trailers, which are put
-- into the header.
abbrev pub response_calls : Header → ℕ → List Bytes → Header → List ServerCall
response_calls h status bufs hdr =
    sets_header h ∷ writes_header status ∷ map writes bufs ++ sets_header hdr ∷ []

run_calls-writes :
    (pipe_error : List Bytes → Bytes → Option Error) (w : WsResponseWriter) (bufs : List Bytes)
    (hdr : Header)
    → run_calls pipe_error w (map writes bufs ++ sets_header hdr ∷ [])
      ≡ record (run_writes pipe_error w bufs) { header = hdr }
unfolding run_calls run_call
run_calls-writes pipe_error w [] hdr = refl
run_calls-writes pipe_error w (b ∷ bs) hdr =
    run_calls-writes pipe_error (write pipe_error w b).0 bs hdr

-- The calls, and `Close` behind them, are the response that the messages are known of.
close-run_calls :
    (pipe_error : List Bytes → Bytes → Option Error) (h : Header) (status : ℕ) (bufs : List Bytes)
    (hdr : Header)
    → close pipe_error
        (run_calls pipe_error new_ws_response_writer (response_calls h status bufs hdr))
      ≡ response pipe_error h status bufs hdr
unfolding run_calls run_call
close-run_calls pipe_error h status bufs hdr = ap (close pipe_error) (
    run_calls-writes pipe_error (write_header (record new_ws_response_writer { header = h }) status)
      bufs hdr)

some_once : {A : Type 0} {o : Option A} {x y : A} → o ≡ some x → o ≡ some y → x ≡ y
some_once h k = cc

-- `sends` is what comes of sending the response's messages in order, up to the first failure of the
-- connection. Without a failure the handler has sent them all and closed the connection normally, and
-- what is delivered is right; with one it was closed with the error of that failure.
abbrev pub Answers : {Conn : Type 0} → (Conn → Type 0) → Sent Conn → Handled Conn → Type 0
Answers {Conn} Right sends handled =
    ((conn : Conn) × (sends ≡ (conn, none))
      × (handled ≡ finished conn (normal_closure ∷ []))
      × Right conn)
    ⊎ ((conn : Conn) × (e : Error) × (sends ≡ (conn, some e))
        × (handled ≡ write_failed conn (internal_error e)))

joined-Answers :
    {Conn : Type 0} (Right : Conn → Type 0) (sends s : Sent Conn)
    → sends ≡ s
    → (s.1 ≡ none → Right s.0)
    → Answers Right sends (joined (some s) none)
unfolding joined close_on_error
joined-Answers Right sends (conn, none) same right = inl (conn, same, refl, right refl)
joined-Answers Right sends (conn, some e) same right = inr (conn, e, same, refl)

-- The messages of a response.
abbrev pub response_messages : Header → Header → List (ℕ × Bytes) → List Bytes
response_messages h hdr ms =
    frame 128 (header_block h) ∷ frames ms ++ frame 128 (trailer_block h hdr) ∷ []

-- Read to the end with any buffer that is not empty, the body gives these bytes.
abbrev pub Gives : Bytes → WsReader → Type 0
Gives bs body = (size : ℕ) → 0 < size → drain (suc (length bs)) size body ≡ some bs

module _ {Conn : Type 0} (conn_write : Conn → Bytes → Sent Conn) (delivered : Conn → List Bytes)
    (write_delivers : (c : Conn) (m : Bytes)
      → (conn_write c m).1 ≡ none
      → delivered (conn_write c m).0 ≡ delivered c ++ m ∷ [])
    (close_status : Error → Response.CloseStatus) (set_read_limit : Conn → ℕ → Conn)
    (incoming : Conn → List Arrival) (inbox : Conn → List Bytes)
    (limit_gives : (c : Conn) (limit : ℕ)
      → All (λ m. length m ≤ limit) (inbox c)
      → incoming (set_read_limit c limit) ≡ arrivals_of (inbox c))
    (pipe : List Bytes → Reader)
    (pipe_gives : (xs : List Bytes) → Delivers (pipe xs) (concat xs) eof)
    (pipe_error : List Bytes → Bytes → Option Error)
    (pipe_takes : (xs : List Bytes) (p : Bytes) → pipe_error xs p ≡ none)
    (serve_http : Request → WsReader → List ServerCall) where
  -- The body that the gRPC server gets.
  body_Gives :
      (conn : Conn) (sent : List (ℕ × Bytes))
      → inbox conn ≡ frames sent ++ end_stream_header ∷ []
      → AreDataFrames sent
      → All (λ m. length m ≤ 67108864) (inbox conn)
      → Gives (stream sent) (new_body (incoming (set_read_limit conn read_limit)))
  body_Gives conn sent box frames_ok short size pos =
      subst (λ as'. drain (suc (length (stream sent))) size (new_body as') ≡ some (stream sent))
        (sym (limit_gives conn read_limit short ∙ ap arrivals_of box))
        (drain-Pending (suc (length (stream sent))) size
          (server_reader (frames sent ++ end_stream_header ∷ [])) pos
          (pending (stream sent) refl (Sends-frames sent frames_ok) refl) (omega arith))

  -- The connection is new, a write to it that returns no error adds its message, and under a read limit
  -- it gives the client's messages whole if none is longer. The pipe refuses no write and gives what is
  -- written. The client sends data frames of at most 64 MB, and the end of the stream. For the request
  -- that the handler makes of an accepted one, with any body that gives the bytes of these frames, the
  -- gRPC server makes a response: a header without a status, data frames in any pieces, and trailers;
  -- header and trailers are maps of canonical tokens with values of header bytes, in at most 2^32 - 1
  -- bytes each. Then the messages of the response are sent in order up to the first failure of the
  -- connection. If there is one, the connection is closed with its error. Else the handler returns with a
  -- normal closure only, and the client that reads the messages, with a writer that does not fail,
  -- returns no error and passes on the server's header, frames and trailers.
  pub handle_grpc_ws-Answers :
      (req : Request) (conn : Conn) (write_error : List Call → Bytes → Option Error)
      (sent : List (ℕ × Bytes)) (h : Header) (status : ℕ) (bufs : List Bytes) (hdr : Header)
      (ms : List (ℕ × Bytes)) (closing : Error)
      → delivered (set_read_limit conn read_limit) ≡ []
      → ((cs : List Call) (bs : Bytes) → write_error cs bs ≡ none)
      → inbox conn ≡ frames sent ++ end_stream_header ∷ []
      → AreDataFrames sent
      → All (λ m. length m ≤ 67108864) (inbox conn)
      → ((body : WsReader)
          → Gives (stream sent) body
          → serve_http (websocket_request req) body ≡ response_calls h status bufs hdr)
      → IsU32 (length (header_block h))
      → IsU32 (length (trailer_block h hdr))
      → IsMap (response_header h)
      → All IsField (response_header h)
      → IsMap (trailers_of h hdr)
      → All IsField (trailers_of h hdr)
      → concat bufs ≡ stream ms
      → AreDataFrames ms
      → or_empty (values (response_header h) (codes "Grpc-Status")) ≡ []
      → close_status closing ≡ Response.normal_closure
      → Answers
          (λ c.
            ReadsResponse close_status write_error
              (response_header h)
              (trailers_of h hdr)
              ms
              closing
              (delivered c))
          (send_all conn_write (set_read_limit conn read_limit) (response_messages h hdr ms) none)
          (handle_grpc_ws conn_write set_read_limit incoming pipe pipe_error serve_http req
            (accepted conn))
  unfolding handle_grpc_ws serve_accepted
  handle_grpc_ws-Answers req conn write_error sent h status bufs hdr ms closing fresh never box
        sent_ok short serves small small' map_h fields_h map_t fields_t e frames_ok none_yet
        closed =
      let Right : Conn → Type 0 = λ c.
        ReadsResponse close_status write_error (response_header h) (trailers_of h hdr) ms closing
          (delivered c) in
      let limited = set_read_limit conn read_limit in
      let ends : WsResponseWriter × Option Error → Handled Conn =
        λ r. joined (Grpcwebsocket.write conn_write limited (pipe r.0.written)) r.1 in
      let calls =
        ap (λ cs. close pipe_error (run_calls pipe_error new_ws_response_writer cs))
          (serves (new_body (incoming limited)) (body_Gives conn sent box sent_ok short))
        ∙ close-run_calls pipe_error h status bufs hdr in
      let piped = pipe_gives (response pipe_error h status bufs hdr).0.written in
      let (s, wrote, right) =
        response-read_from_server conn_write delivered write_delivers close_status limited
          pipe_error write_error h status bufs hdr ms closing fresh pipe_takes never small small'
          map_h fields_h map_t fields_t e frames_ok none_yet closed piped in
      let all =
        response-write conn_write limited pipe_error h status bufs hdr ms pipe_takes small small' e
          frames_ok piped in
      let sends = send_all conn_write limited (response_messages h hdr ms) none in
      let same =
        ap ends calls
        ∙ ap (λ o. joined o (response pipe_error h status bufs hdr).1) wrote
        ∙ ap (joined (some s))
            (response_written pipe_error h status bufs hdr pipe_takes small small').0 in
      subst (Answers Right sends) (sym same)
        (joined-Answers Right sends s (some_once all wrote) right)
