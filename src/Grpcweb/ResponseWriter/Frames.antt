-- ===== src/Grpcweb/ResponseWriter/Frames.antt =====
-- The body of a gRPC-Web response, from the server's calls to the client's reader.
use go_grpc_http.Common.{
  ℕ, ◌%◌, ◌^◌, Option, none, some, List, [], ◌∷◌, ◌++◌, length, Bytes, codes, ◌≡◌, refl, sym, ap,
  ◌∙◌, subst, arith, All, append_assoc, append-nil,
}
use go_grpc_http.Errors.{Error}
use go_grpc_http.Proto.{IsU32, IsByte, put_be_uint32, make_message_header}
use go_grpc_http.Proto.Frames.{frame}
use go_grpc_http.Http.{Header, values}
use go_grpc_http.Http.Wire.{write_header_bytes}
use go_grpc_http.Strings.{shallow_clone}
use go_grpc_http.Trailers.{split_trailers}
use go_grpc_http.Grpcweb.Consume.{start, consume}
use go_grpc_http.Grpcweb.Consume.Framing.{AreDataFrames, stream, consume-stream}
use go_grpc_http.Grpcweb.ResponseWriter.{
  Call, wrote, wrote_header, flushed, ResponseWriter, new_response_writer,
  prepare_headers_if_necessary, write_header, write_through, write, write_frame, finalize, call,
}

-- The bytes that the calls send.
abbrev pub body : List Call → Bytes
body [] = []
body (wrote bs ∷ cs) = bs ++ body cs
body (wrote_header n h ∷ cs) = body cs
body (flushed ∷ cs) = body cs

pub body-append : (cs ds : List Call) → body (cs ++ ds) ≡ body cs ++ body ds
body-append [] ds = refl
body-append (wrote bs ∷ cs) ds =
    ap (◌++◌ bs) (body-append cs ds) ∙ sym (append_assoc bs (body cs) (body ds))
body-append (wrote_header n h ∷ cs) ds = body-append cs ds
body-append (flushed ∷ cs) ds = body-append cs ds

pub shallow_clone_lem : {A : Type 0} (s : Option (List A)) → shallow_clone s ≡ s
unfolding shallow_clone
shallow_clone_lem none = refl
shallow_clone_lem (some []) = refl
shallow_clone_lem (some (x ∷ xs)) = refl

abbrev pub concat : List Bytes → Bytes
concat [] = []
concat (b ∷ bs) = b ++ concat bs

module _ (write_error : List Call → Bytes → Option Error) where
  -- The gRPC server's calls of `Write`, in order.
  abbrev pub run_writes : ResponseWriter → List Bytes → ResponseWriter
  run_writes w [] = w
  run_writes w (b ∷ bs) = run_writes (write write_error w b).0 bs

  prepare_once :
      (w : ResponseWriter) {announced : List Bytes}
      → w.announced_trailers ≡ some announced
      → prepare_headers_if_necessary w ≡ w
  unfolding prepare_headers_if_necessary
  prepare_once w h = ground arith

  write_announced :
      (w : ResponseWriter) (b : Bytes) {announced : List Bytes}
      → w.announced_trailers ≡ some announced
      → (write write_error w b).0 ≡ call w (wrote b)
  unfolding write write_through
  write_announced w b h = ap (λ x. call x (wrote b)) (prepare_once w h)

  -- A writer whose headers are written with announced trailers stays so, and every chunk is sent.
  run_writes_announced :
      (bufs : List Bytes) (w : ResponseWriter) {announced : List Bytes}
      → w.announced_trailers ≡ some announced
      → ((run_writes w bufs).announced_trailers ≡ some announced)
        × (body (run_writes w bufs).calls ≡ body w.calls ++ concat bufs)
        × ((run_writes w bufs).header ≡ w.header)
  run_writes_announced [] w h = (h, sym (append-nil (body w.calls)), refl)
  run_writes_announced (b ∷ bs) w h =
      let (a, sent, same) = run_writes_announced bs (call w (wrote b)) h in
      let e = ap (λ x. run_writes x bs) (write_announced w b h) in
      (
        ap (λ x. x.announced_trailers) e ∙ a,
        ap (λ x. body x.calls) e ∙ sent ∙ one_more,
        ap (λ x. x.header) e ∙ same,
      )
    where
      one_more : body (w.calls ++ wrote b ∷ []) ++ concat bs ≡ body w.calls ++ (b ++ concat bs)
      one_more = rw body-append (rw append-nil (append_assoc (body w.calls) b (concat bs)))

  write_frame_lem :
      (w : ResponseWriter) (buf : Bytes)
      → ((cs : List Call) (bs : Bytes) → write_error cs bs ≡ none)
      → IsU32 (length buf)
      → write_frame write_error w buf
        ≡ (call (call w (wrote (make_message_header 128 (length buf)))) (wrote buf), none)
  unfolding write_frame write_through make_message_header
  write_frame_lem w buf never h =
      let header = 128 ∷ put_be_uint32 (length buf % 2 ^ 32) in
      ground (arith, never w.calls header, never (w.calls ++ wrote header ∷ []) buf)

  write_frame-body :
      (w : ResponseWriter) (buf : Bytes)
      → ((cs : List Call) (bs : Bytes) → write_error cs bs ≡ none)
      → IsU32 (length buf)
      → ((write_frame write_error w buf).1 ≡ none)
        × (body (write_frame write_error w buf).0.calls ≡ body w.calls ++ frame 128 buf)
  unfolding frame
  write_frame-body w buf never h = rw (write_frame_lem w buf never h) (refl, sent)
    where
      sent :
          body ((w.calls ++ wrote (make_message_header 128 (length buf)) ∷ []) ++ wrote buf ∷ [])
          ≡ body w.calls ++ (make_message_header 128 (length buf) ++ buf)
      sent = simp (body-append, append-nil, append_assoc)

  -- The gRPC server's use of the writer: `WriteHeader`, the writes, the trailers put into the header,
  -- and `Finalize`.
  abbrev pub response : Header → ℕ → List Bytes → Header → ResponseWriter × Option Error
  response h status bufs hdr =
      finalize write_error
        (record (run_writes (write_header (new_response_writer h) status) bufs) { header = hdr })

  write_header_announced :
      (h : Header) (status : ℕ)
      → (write_header (new_response_writer h) status).announced_trailers
        ≡ values h (codes "Trailer")
  unfolding write_header prepare_headers_if_necessary
  write_header_announced h status = shallow_clone_lem (values h (codes "Trailer"))

  write_header-body :
      (h : Header) (status : ℕ) → body (write_header (new_response_writer h) status).calls ≡ []
  unfolding write_header prepare_headers_if_necessary
  write_header-body h status = refl

  finalize_announced :
      (w : ResponseWriter) (announced : List Bytes)
      → w.announced_trailers ≡ some announced
      → finalize write_error w
        ≡ write_frame write_error
            (record w { header = (split_trailers w.header announced).0 })
            (write_header_bytes (split_trailers w.header announced).1)
  unfolding finalize
  finalize_announced w announced h = ground arith

  pub response-body :
      (h : Header) (status : ℕ) (bufs : List Bytes) (hdr : Header) {announced : List Bytes}
      → values h (codes "Trailer") ≡ some announced
      → ((cs : List Call) (bs : Bytes) → write_error cs bs ≡ none)
      → IsU32 (length (write_header_bytes (split_trailers hdr announced).1))
      → ((response h status bufs hdr).1 ≡ none)
        × (body (response h status bufs hdr).0.calls
            ≡ concat bufs ++ frame 128 (write_header_bytes (split_trailers hdr announced).1))
  response-body h status bufs hdr {announced} a never small =
      let (stays, sent, _) =
        run_writes_announced bufs (write_header (new_response_writer h) status)
          (write_header_announced h status ∙ a) in
      let w = record (run_writes (write_header (new_response_writer h) status) bufs) {
        header = hdr;
      } in
      let (fine, framed) =
        write_frame-body (record w { header = (split_trailers hdr announced).0 })
          (write_header_bytes (split_trailers hdr announced).1) never small in
      rw (finalize_announced w announced stays) (
        fine,
        framed
            ∙ ap (λ x. x ++ frame 128 (write_header_bytes (split_trailers hdr announced).1))
                (sent ∙ ap (λ x. x ++ concat bufs) (write_header-body h status)),
      )

  -- Trailers are announced, the underlying writer does not fail, the trailers fit 32 bits, the gRPC
  -- server wrote data frames in any pieces, and the body is made of bytes. Then `consume` of a new
  -- response reader on the whole body takes exactly the data frames, stops in front of the trailer
  -- frame, and expects a header.
  pub response-consume :
      (h : Header) (status : ℕ) (bufs : List Bytes) (hdr : Header) {announced : List Bytes}
      (ms : List (ℕ × Bytes))
      → values h (codes "Trailer") ≡ some announced
      → ((cs : List Call) (bs : Bytes) → write_error cs bs ≡ none)
      → IsU32 (length (write_header_bytes (split_trailers hdr announced).1))
      → concat bufs ≡ stream ms
      → AreDataFrames ms
      → All IsByte (body (response h status bufs hdr).0.calls)
      → consume start (body (response h status bufs hdr).0.calls) ≡ some (start, length (stream ms))
  response-consume h status bufs hdr {announced} ms a never small e frames bytes =
      let payload = write_header_bytes (split_trailers hdr announced).1 in
      let sent : body (response h status bufs hdr).0.calls
          ≡ stream ms ++ (frame 128 payload ++ []) =
        (response-body h status bufs hdr a never small).1
        ∙ ap (λ x. x ++ frame 128 payload) e
        ∙ ap (◌++◌ (stream ms)) (sym (append-nil (frame 128 payload))) in
      rw sent
        (consume-stream ms 128 payload [] frames (omega arith) (subst (All IsByte) sent bytes))
