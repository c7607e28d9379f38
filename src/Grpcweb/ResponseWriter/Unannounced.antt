-- ===== src/Grpcweb/ResponseWriter/Unannounced.antt =====
-- A response whose handler writes headers without a `Trailer` field.
use go_grpc_http.Common.{
  ℕ, Option, none, List, [], ◌∷◌, ◌++◌, equal, Bytes, codes, ◌≡◌, refl, sym, ap, ◌∙◌, arith,
  append_assoc, append-nil,
}
use go_grpc_http.Errors.{Error}
use go_grpc_http.Http.{Header, values, canonical_header_key, delete, set, del}
use go_grpc_http.Http.Laws.{values-store, values-delete}
use go_grpc_http.Strings.{shallow_clone}
use go_grpc_http.Trailers.{trailers_only}
use go_grpc_http.Grpcweb.ResponseWriter.{
  Call, wrote, ResponseWriter, new_response_writer, prepared, prepare_headers_if_necessary,
  write_header, write_through, write, finalize, call,
}
use go_grpc_http.Grpcweb.ResponseWriter.Frames.{body, body-append, concat, run_writes, response}

-- The announcement is deleted with the headers.
values-prepared : (h : Header) → values (prepared h) (codes "Trailer") ≡ none
unfolding prepared del set canonical_header_key
values-prepared h =
    values-delete _ (codes "Content-Length") (codes "Trailer")
    ∙ unfold equal in
      (values-store (delete h (codes "Trailer")) (codes "Content-Type") (codes "Trailer") _
        ∙ values-delete h (codes "Trailer") (codes "Trailer"))

-- Without an announcement no preparation leaves a trace in `announcedTrailers`.
IsUnannounced : ResponseWriter → Type 0
IsUnannounced w = (w.announced_trailers ≡ none) × (values w.header (codes "Trailer") ≡ none)

prepare-IsUnannounced :
    (w : ResponseWriter) → IsUnannounced w → IsUnannounced (prepare_headers_if_necessary w)
unfolding IsUnannounced prepare_headers_if_necessary shallow_clone
prepare-IsUnannounced w (a, t) = ground (arith, values-prepared w.header)

prepare-calls : (w : ResponseWriter) → (prepare_headers_if_necessary w).calls ≡ w.calls
unfolding prepare_headers_if_necessary
prepare-calls w = ground arith

module _ (write_error : List Call → Bytes → Option Error) where
  run_writes-IsUnannounced :
      (bufs : List Bytes) (w : ResponseWriter)
      → IsUnannounced w
      → IsUnannounced (run_writes write_error w bufs)
        × (body (run_writes write_error w bufs).calls ≡ body w.calls ++ concat bufs)
  unfolding write write_through prepare_headers_if_necessary IsUnannounced
  run_writes-IsUnannounced [] w u = (u, sym (append-nil (body w.calls)))
  run_writes-IsUnannounced (b ∷ bs) w u =
      let (u', sent) =
        run_writes-IsUnannounced bs (call (prepare_headers_if_necessary w) (wrote b))
          (prepare-IsUnannounced w u) in
      (u', sent ∙ one_more)
    where
      one_more :
          body ((prepare_headers_if_necessary w).calls ++ wrote b ∷ []) ++ concat bs
          ≡ body w.calls ++ (b ++ concat bs)
      one_more =
          rw (prepare-calls w)
            (rw body-append (rw append-nil (append_assoc (body w.calls) b (concat bs))))

  finalize_unannounced :
      (w : ResponseWriter)
      → w.announced_trailers ≡ none
      → finalize write_error w ≡ (record w { header = trailers_only w.header }, none)
  unfolding finalize
  finalize_unannounced w h = ground arith

  response_once :
      (w : ResponseWriter) (bufs : List Bytes) (hdr : Header)
      → IsUnannounced w
      → body w.calls ≡ []
      → let r = finalize write_error (record (run_writes write_error w bufs) { header = hdr }) in
        (r.1 ≡ none) × (body r.0.calls ≡ concat bufs)
  unfolding IsUnannounced
  response_once w bufs hdr u e =
      let ((a, _), sent) = run_writes-IsUnannounced bufs w u in
      rw (finalize_unannounced (record (run_writes write_error w bufs) { header = hdr }) a)
        (refl, sent ∙ ap (λ x. x ++ concat bufs) e)

  -- The server writes a header without a `Trailer` field, then the body in any pieces, and only behind
  -- the last of them changes the header, in any way. Then `Finalize` takes the response for one without
  -- a body: no trailer frame is sent behind what was written, and no error is returned.
  pub response_unannounced :
      (h : Header) (status : ℕ) (bufs : List Bytes) (hdr : Header)
      → values h (codes "Trailer") ≡ none
      → ((response write_error h status bufs hdr).1 ≡ none)
        × (body (response write_error h status bufs hdr).0.calls ≡ concat bufs)
  unfolding write_header IsUnannounced prepare_headers_if_necessary
  response_unannounced h status bufs hdr e =
      response_once (write_header (new_response_writer h) status) bufs hdr
        (prepare-IsUnannounced (new_response_writer h) (refl, e)) refl
