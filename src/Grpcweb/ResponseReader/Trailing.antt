-- ===== src/Grpcweb/ResponseReader/Trailing.antt =====
-- Calls of `Read` inside and behind the trailer frame.
use go_grpc_http.Common.{
  ℕ, ◌<◌, ◌≤◌, true, Option, none, some, [], ◌∷◌, ◌++◌, length, Bytes, codes, ◌≡◌, refl, sym, arith,
  subst,
}
use go_grpc_http.Errors.{eof}
use go_grpc_http.Io.{Transfer}
use go_grpc_http.Io.Delivery.{Delivers}
use go_grpc_http.Io.Reading.{weight, Gave, part, all, read-Gave}
use go_grpc_http.Proto.{IsU32}
use go_grpc_http.Proto.Frames.{frame}
use go_grpc_http.Http.{Header}
use go_grpc_http.Http.Mime.{parsed, read_mime_header}
use go_grpc_http.Grpcweb.ResponseReader.{
  passed_on, ResponseReader, Decompressor, populate_trailers, body_read, read_behind_trailers, kept,
}
use go_grpc_http.Grpcweb.ResponseReader.Trailers.{read_full_trailers_lem}
use go_grpc_http.Grpcweb.ResponseReader.Phases.{
  Outcome, adjusted, adjust_behind, behind_trailers, Progress, handed_out, finished, todo,
}

module _ (decompressor : Option Decompressor) (payload : Bytes) (h : Header) where
  pub behind_step :
      (goal : Header) (size n : ℕ) (r : ResponseReader) {t : Transfer}
      → Gave size r.body [] t
      → weight r.body ≤ n
      → r.err ≡ none
      → r.trailers ≡ goal
      → r.partial_trailer_data ≡ []
      → r.has_read_trailers ≡ true
      → Progress decompressor payload h goal size n [] (adjusted (body_read t r, t.bytes, t.error))
  behind_step goal size n r (part [] more r' le e d less store) lt fresh g none_left done =
      let after = body_read (record { bytes = []; error = none; rest = r' }) r in
      subst (λ o. Progress decompressor payload h goal size n [] (some (kept after o)))
        (sym (adjust_behind after none done))
        (handed_out [] [] (omega arith) refl
          (behind_trailers fresh none_left done g (subst (λ bs. Delivers r' bs eof) (sym e) d) refl)
          (rw none_left (omega arith)))
  behind_step goal size n r (part (c ∷ cs) more r' le e d less store) lt fresh g none_left done = cc
  behind_step goal size n r (all [] r' le e d) lt fresh g none_left done =
      let after = body_read (record { bytes = []; error = some eof; rest = r' }) r in
      subst (λ o. Progress decompressor payload h goal size n [] (some (kept after o)))
        (sym (adjust_behind after (some eof) done)) (finished refl g refl)
  behind_step goal size n r (all (c ∷ cs) r' le e d) lt fresh g none_left done = cc

  pub read_behind :
      (goal : Header) (size : ℕ) (r : ResponseReader) {bs : Bytes}
      → 0 < size
      → IsU32 (length payload)
      → read_mime_header eof (payload ++ codes "\r\n") ≡ parsed h []
      → r.err ≡ none
      → populate_trailers r.trailers h ≡ goal
      → Delivers r.body bs eof
      → r.partial_trailer_data ++ bs ≡ frame 128 payload
      → Progress decompressor payload h goal size
          (todo decompressor payload h r)
          []
          (adjusted (read_behind_trailers decompressor size r))
  unfolding read_behind_trailers passed_on
  read_behind goal size r {bs} pos small parses fresh g d whole =
      let (body, d', less, e) =
        read_full_trailers_lem decompressor r payload d whole small parses in
      let after : ResponseReader = record r {
        body = body;
        trailers = populate_trailers r.trailers h;
        has_read_trailers = true;
        partial_trailer_data = [];
      } in
      subst
        (λ o.
          Progress decompressor payload h goal size (todo decompressor payload h r) []
            (adjusted (passed_on size o)))
        (sym e)
        (behind_step goal size (todo decompressor payload h r) after (read-Gave size pos d')
          (omega arith) fresh g refl refl)

  pub weaker :
      {goal : Header} {size size' n n' : ℕ} {out : Bytes} {o : Outcome}
      → size ≤ size'
      → n ≤ n'
      → Progress decompressor payload h goal size n out o
      → Progress decompressor payload h goal size' n' out o
  weaker a b (handed_out front back le e p less) =
      handed_out front back (omega arith) e p (omega arith)
  weaker a b (finished e g f) = finished e g f
