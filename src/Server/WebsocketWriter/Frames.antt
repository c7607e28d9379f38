-- ===== src/Server/WebsocketWriter/Frames.antt =====
-- The messages of a gRPC-WebSocket response, from the server's calls to the connection.
use go_grpc_http.Common.{
  ℕ, ◌%◌, ◌^◌, true, Option, none, some, List, [], ◌∷◌, ◌++◌, if◌then◌else◌, length, Bytes, codes,
  ◌≡◌, refl, sym, ap, ◌∙◌, subst, arith, append_assoc, append-nil,
}
use go_grpc_http.Errors.{Error, eof}
use go_grpc_http.Io.{Reader}
use go_grpc_http.Io.Delivery.{Delivers}
use go_grpc_http.Proto.{IsU32, make_message_header}
use go_grpc_http.Proto.Frames.{frame}
use go_grpc_http.Http.{Header, values}
use go_grpc_http.Http.Wire.{write_header_bytes}
use go_grpc_http.Grpcweb.Consume.Framing.{AreDataFrames, stream}
use go_grpc_http.Grpcweb.ResponseWriter.Frames.{concat, shallow_clone_lem}
use go_grpc_http.Grpcwebsocket
use go_grpc_http.Grpcwebsocket.{Sent}
use go_grpc_http.Tunnel.{frames}
use go_grpc_http.Grpcwebsocket.Splitting.{Splits, done, cut_header, message}
use go_grpc_http.Grpcwebsocket.Sending.{send_all, write-of_Splits}
use go_grpc_http.Server.WebsocketWriter.{
  WsResponseWriter, new_ws_response_writer, piped, metadata_header, response_header, write_header,
  close_trailers, write_piped, write, write_trailers, close,
}

pub concat-append : (xs ys : List Bytes) → concat (xs ++ ys) ≡ concat xs ++ concat ys
concat-append [] ys = refl
concat-append (x ∷ xs) ys =
    ap (λ r. x ++ r) (concat-append xs ys) ∙ sym (append_assoc x (concat xs) (concat ys))

concat-piped : (xs : List Bytes) (p : Bytes) → concat (xs ++ p ∷ []) ≡ concat xs ++ p
concat-piped xs p = concat-append xs (p ∷ []) ∙ ap (λ r. concat xs ++ r) (append-nil p)

metadata_frame :
    (xs : List Bytes) (buf : Bytes)
    → IsU32 (length buf)
    → concat ((xs ++ metadata_header buf ∷ []) ++ buf ∷ []) ≡ concat xs ++ frame 128 buf
unfolding frame
metadata_frame xs buf h =
    let fits : length buf % 2 ^ 32 ≡ length buf = omega arith in
    concat-piped (xs ++ metadata_header buf ∷ []) buf
    ∙ ap (λ r. r ++ buf) (concat-piped xs (metadata_header buf))
    ∙ append_assoc (concat xs) (metadata_header buf) buf
    ∙ ap (λ n. concat xs ++ (make_message_header 128 n ++ buf)) fits

-- The header and the trailers as they are sent.
abbrev pub header_block : Header → Bytes
header_block h = write_header_bytes (response_header h)

abbrev pub trailer_block : Header → Header → Bytes
trailer_block h hdr =
    write_header_bytes
      (close_trailers (record new_ws_response_writer {
        header = hdr;
        announced_trailers = values h (codes "Trailer");
      })).1

close_trailers_lem :
    (w : WsResponseWriter) (h hdr : Header)
    → w.header ≡ hdr
    → w.announced_trailers ≡ values h (codes "Trailer")
    → write_header_bytes (close_trailers w).1 ≡ trailer_block h hdr
unfolding close_trailers
close_trailers_lem w h hdr e a =
    ap
      (λ x.
        write_header_bytes
          (close_trailers (record new_ws_response_writer {
            header = x;
            announced_trailers = w.announced_trailers;
          })).1)
      e
    ∙ ap
        (λ x.
          write_header_bytes
            (close_trailers
              (record new_ws_response_writer { header = hdr; announced_trailers = x })).1)
        a

header_sent :
    (h : Header) (status : ℕ)
    → (write_header (record new_ws_response_writer { header = h }) status).header_written ≡ true
unfolding write_header
header_sent h status = refl

header_announced :
    (h : Header) (status : ℕ)
    → (write_header (record new_ws_response_writer { header = h }) status).announced_trailers
      ≡ values h (codes "Trailer")
unfolding write_header
header_announced h status = shallow_clone_lem (values h (codes "Trailer"))

header_frame :
    (h : Header) (status : ℕ)
    → IsU32 (length (header_block h))
    → concat (write_header (record new_ws_response_writer { header = h }) status).written
      ≡ frame 128 (header_block h)
unfolding write_header
header_frame h status small = metadata_frame [] (header_block h) small

module _ (write_error : List Bytes → Bytes → Option Error) where
  -- The gRPC server's calls of `Write`, in order.
  abbrev pub run_writes : WsResponseWriter → List Bytes → WsResponseWriter
  run_writes w [] = w
  run_writes w (b ∷ bs) = run_writes (write write_error w b).0 bs

  write_again :
      (w : WsResponseWriter) (p : Bytes)
      → w.header_written ≡ true
      → (write write_error w p).0 ≡ piped w p
  unfolding write write_piped
  write_again w p h = ap (λ b. piped (if b then w else write_header w 200) p) h

  run_writes_lem :
      (bufs : List Bytes) (w : WsResponseWriter)
      → w.header_written ≡ true
      → (concat (run_writes w bufs).written ≡ concat w.written ++ concat bufs)
        × ((run_writes w bufs).announced_trailers ≡ w.announced_trailers)
  run_writes_lem [] w h = (sym (append-nil (concat w.written)), refl)
  run_writes_lem (b ∷ bs) w h =
      let (sent, same) = run_writes_lem bs (piped w b) h in
      let e = write_again w b h in
      (
        ap (λ x. concat (run_writes x bs).written) e
            ∙ sent
            ∙ ap (λ r. r ++ concat bs) (concat-piped w.written b)
            ∙ append_assoc (concat w.written) b (concat bs),
        ap (λ x. (run_writes x bs).announced_trailers) e ∙ same,
      )

  write_trailers_lem :
      (w : WsResponseWriter) (buf : Bytes)
      → ((xs : List Bytes) (p : Bytes) → write_error xs p ≡ none)
      → write_trailers write_error w buf ≡ (piped (piped w (metadata_header buf)) buf, none)
  unfolding write_trailers write_piped
  write_trailers_lem w buf never = ground (
    arith,
    never w.written (metadata_header buf),
    never (w.written ++ metadata_header buf ∷ []) buf,
  )

  -- The trailers that `Close` sends, behind what is written.
  close_lem :
      (w : WsResponseWriter)
      → ((xs : List Bytes) (p : Bytes) → write_error xs p ≡ none)
      → IsU32 (length (write_header_bytes (close_trailers w).1))
      → ((close write_error w).1 ≡ none)
        × ((close write_error w).0.closed ≡ true)
        × (concat (close write_error w).0.written
            ≡ concat w.written ++ frame 128 (write_header_bytes (close_trailers w).1))
  unfolding close
  close_lem w never h =
      let buf = write_header_bytes (close_trailers w).1 in
      let e = write_trailers_lem (record w { header = (close_trailers w).0 }) buf never in
      (ap (λ r. r.1) e, refl, ap (λ r. concat r.0.written) e ∙ metadata_frame w.written buf h)

  -- The gRPC server's use of the writer: `WriteHeader`, the writes, the trailers put into the header,
  -- and `Close`.
  abbrev pub response : Header → ℕ → List Bytes → Header → WsResponseWriter × Option Error
  response h status bufs hdr =
      close write_error
        (record (run_writes (write_header (record new_ws_response_writer { header = h }) status)
          bufs) { header = hdr })

  -- What comes through the pipe: a metadata frame with the header, the data, and a metadata frame with
  -- the trailers.
  pub response_written :
      (h : Header) (status : ℕ) (bufs : List Bytes) (hdr : Header)
      → ((xs : List Bytes) (p : Bytes) → write_error xs p ≡ none)
      → IsU32 (length (header_block h))
      → IsU32 (length (trailer_block h hdr))
      → ((response h status bufs hdr).1 ≡ none)
        × (concat (response h status bufs hdr).0.written
            ≡ frame 128 (header_block h) ++ (concat bufs ++ frame 128 (trailer_block h hdr)))
  response_written h status bufs hdr never small small' =
      let w = write_header (record new_ws_response_writer { header = h }) status in
      let (written, announced) = run_writes_lem bufs w (header_sent h status) in
      let w' : WsResponseWriter = record (run_writes w bufs) { header = hdr } in
      let same = close_trailers_lem w' h hdr refl (announced ∙ header_announced h status) in
      let (fine, _, all) = close_lem w' never (subst (λ b. IsU32 (length b)) (sym same) small') in
      (
        fine,
        all
            ∙ ap (λ b. concat (run_writes w bufs).written ++ frame 128 b) same
            ∙ ap (λ r. r ++ frame 128 (trailer_block h hdr))
                (written ∙ ap (λ r. r ++ concat bufs) (header_frame h status small))
            ∙ append_assoc (frame 128 (header_block h)) (concat bufs)
                (frame 128 (trailer_block h hdr)),
      )

-- Frames with a whole frame behind them.
Splits-stream_more :
    (ms : List (ℕ × Bytes)) {bs tail : Bytes} {msgs : List Bytes}
    → AreDataFrames ms
    → Splits bs msgs tail
    → Splits (stream ms ++ bs) (frames ms ++ msgs) tail
Splits-stream_more [] h s = s
Splits-stream_more ((f, p) ∷ ms) {bs} ((_, n), h) s =
    message f p n (Splits-stream_more ms h s) (append_assoc (frame f p) (stream ms) bs)

pub response-write :
    {Conn : Type 0} (conn_write : Conn → Bytes → Sent Conn) (conn : Conn)
    (write_error : List Bytes → Bytes → Option Error) (h : Header) (status : ℕ) (bufs : List Bytes)
    (hdr : Header) (ms : List (ℕ × Bytes)) {r : Reader}
    → ((xs : List Bytes) (p : Bytes) → write_error xs p ≡ none)
    → IsU32 (length (header_block h))
    → IsU32 (length (trailer_block h hdr))
    → concat bufs ≡ stream ms
    → AreDataFrames ms
    → Delivers r (concat (response write_error h status bufs hdr).0.written) eof
    → Grpcwebsocket.write conn_write conn r
      ≡ some (
          send_all conn_write conn
            (frame 128 (header_block h) ∷ frames ms ++ frame 128 (trailer_block h hdr) ∷ [])
            none)
response-write conn_write conn write_error h status bufs hdr ms never small small' e frames_ok d =
    let written =
      (response_written write_error h status bufs hdr never small small').1
      ∙ ap (λ b. frame 128 (header_block h) ++ (b ++ frame 128 (trailer_block h hdr))) e in
    let behind =
      message 128 (trailer_block h hdr) small' (done (cut_header (omega arith)))
        (sym (append-nil (frame 128 (trailer_block h hdr)))) in
    write-of_Splits conn_write conn
      (message 128 (header_block h) small (Splits-stream_more ms frames_ok behind) written) d
