-- ===== src/Grpcweb/ResponseReader/Handed.antt =====
-- What is handed out of a buffer where the trailers begin.
use go_grpc_http.Common.{
  ℕ, suc, ◌+◌, ◌<◌, ◌≤◌, true, false, Option, none, some, [], ◌∷◌, ◌++◌, length, take, Bytes, codes,
  ◌≡◌, refl, sym, ap, ◌∙◌, ◌⊎◌, arith, subst, append-nil,
}
use go_grpc_http.Errors.{eof}
use go_grpc_http.Io.{Transfer}
use go_grpc_http.Io.Delivery.{Delivers}
use go_grpc_http.Proto.{IsU32}
use go_grpc_http.Proto.Frames.{frame}
use go_grpc_http.Http.{Header}
use go_grpc_http.Http.Mime.{parsed, read_mime_header}
use go_grpc_http.Http.Wire.{is_empty}
use go_grpc_http.Grpcweb.Consume.{Cursor}
use go_grpc_http.Grpcweb.ResponseReader.{
  handed, ResponseReader, Decompressor, populate_trailers, body_read, read_behind_trailers, kept,
}
use go_grpc_http.Grpcweb.ResponseReader.Phases.{
  adjusted, has_data, adjust_begun, in_trailers, Progress, handed_out, todo,
}
use go_grpc_http.Grpcweb.ResponseReader.Trailing.{weaker, read_behind}

module _ (decompressor : Option Decompressor) (payload : Bytes) (h : Header) where
  -- The reader with what a call gave, behind `consume`.
  abbrev pub with_rest : ResponseReader → Transfer → Cursor → Bytes → ResponseReader
  with_rest r t c p = record (body_read t r) { cursor = c; partial_trailer_data = p }

  handed_only :
      (t : Transfer) (r : ResponseReader)
      → is_empty r.partial_trailer_data ≡ false
      → handed decompressor t 0 r ≡ read_behind_trailers decompressor (length t.bytes) r
  unfolding handed
  handed_only t r e = rw e refl

  handed_front :
      (t : Transfer) (n : ℕ) (r : ResponseReader)
      → 0 < n
      → handed decompressor t n r ≡ (r, take n t.bytes, t.error)
  unfolding handed
  handed_front t n r h = ground arith

  pub handed_whole :
      (t : Transfer) (n : ℕ) (r : ResponseReader)
      → r.partial_trailer_data ≡ []
      → handed decompressor t n r ≡ (r, take n t.bytes, t.error)
  unfolding handed
  handed_whole t n r h = ground arith

  -- The trailer frame has begun: what is in front of it is handed out, if there is something.
  pub begun :
      (goal : Header) (size n : ℕ) (r : ResponseReader) (out : Bytes) (t : Transfer) {more : Bytes}
      → 0 < length t.bytes
      → IsU32 (length payload)
      → read_mime_header eof (payload ++ codes "\r\n") ≡ parsed h []
      → r.err ≡ none
      → is_empty r.partial_trailer_data ≡ false
      → r.has_read_trailers ≡ false
      → r.has_read_data ≡ true
      → populate_trailers r.trailers h ≡ goal
      → (t.error ≡ none) ⊎ (t.error ≡ some eof)
      → length t.bytes ≤ size
      → length out ≤ length t.bytes
      → Delivers r.body more eof
      → r.partial_trailer_data ++ more ≡ frame 128 payload
      → take (length out) t.bytes ≡ out
      → todo decompressor payload h r + length out ≤ n
      → Progress decompressor payload h goal size n out
          (adjusted (handed decompressor t (length out) r))
  begun goal size n r [] t pos small parses fresh some_left before_trailers has_data g err le short
        d whole front less =
      rw (handed_only t r some_left) (
        weaker decompressor payload h le (omega arith) (
          read_behind decompressor payload h goal (length t.bytes) r pos small parses fresh g d
            whole))
  begun goal size n r (b ∷ out) t pos small parses fresh some_left before_trailers has_data g err le
        short d whole front less =
      subst (λ o. Progress decompressor payload h goal size n (b ∷ out) (adjusted o))
        (sym (handed_front t (suc (length out)) r (omega arith)))
        (subst (λ o. Progress decompressor payload h goal size n (b ∷ out) (some (kept r o)))
          (sym (
            adjust_begun r (take (suc (length out)) t.bytes) t.error before_trailers has_data
              some_left err
            ∙ ap (λ q. (q, none)) front))
          (handed_out (b ∷ out) [] (omega arith) (sym (append-nil (b ∷ out)))
            (in_trailers fresh some_left before_trailers has_data g d whole refl) (omega arith)))
