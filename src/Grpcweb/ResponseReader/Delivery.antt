-- ===== src/Grpcweb/ResponseReader/Delivery.antt =====
-- Reading a gRPC-Web response to the end: the data frames, and then the trailers.
use go_grpc_http.Common.{
  ℕ, zero, suc, ◌+◌, ◌<◌, true, false, Option, none, some, List, [], ◌++◌, length, take, Bytes,
  codes, ◌≡◌, refl, sym, ap, ◌∙◌, arith, subst, All, All-take, append-nil, take-append_length,
}
use mathlib.Core.Option
use go_grpc_http.Errors.{Error, eof}
use go_grpc_http.Io.{Reader, Transfer}
use go_grpc_http.Io
use go_grpc_http.Io.Delivery.{Delivers}
use go_grpc_http.Io.Reading.{weight, Gave, part, all, read-Gave}
use go_grpc_http.Proto.{IsByte, IsU32}
use go_grpc_http.Proto.Frames.{frame}
use go_grpc_http.Http.{Header}
use go_grpc_http.Http.Mime.{parsed, read_mime_header}
use go_grpc_http.Http.Wire.{is_empty}
use go_grpc_http.Grpcweb.Consume.{start}
use go_grpc_http.Grpcweb.Consume.Automaton.{scan, IsCursor}
use go_grpc_http.Grpcweb.Consume.Bytewise.{consume-scan}
use go_grpc_http.Grpcweb.Consume.Framing.{AreDataFrames, stream, scan-stream, scan_trailer}
use go_grpc_http.Grpcweb.ResponseReader.{
  ResponseReader, Decompressor, new_response_reader, populate_trailers, body_read,
  read_behind_trailers, consumed, read_data, do_read, read,
}
use go_grpc_http.Grpcweb.ResponseReader.Phases.{
  Outcome, adjusted, Phase, in_data, in_trailers, behind_trailers, Progress, handed_out, finished,
  todo,
}
use go_grpc_http.Grpcweb.ResponseReader.Trailing.{read_behind, behind_step}
use go_grpc_http.Grpcweb.ResponseReader.Steps.{data_step}

-- `Read` in front of the trailers, at a trailer frame, and behind it.
module _ (decompressor : Option Decompressor) (size : ℕ) (r : ResponseReader) where
  read_data_lem :
      r.err ≡ none
      → r.partial_trailer_data ≡ []
      → r.has_read_trailers ≡ false
      → IsCursor r.cursor
      → All IsByte (Io.read size r.body).bytes
      → read decompressor size r
        ≡ adjusted (
            consumed decompressor
              (Io.read size r.body)
              (body_read (Io.read size r.body) r)
              (scan r.cursor (Io.read size r.body).bytes))
  unfolding read do_read read_data
  read_data_lem fresh none_left before_trailers v bytes =
      ground (arith, (consume-scan r.cursor (Io.read size r.body).bytes v bytes).0)

  pub read_trailers_lem :
      r.err ≡ none
      → is_empty r.partial_trailer_data ≡ false
      → read decompressor size r ≡ adjusted (read_behind_trailers decompressor size r)
  unfolding read do_read
  read_trailers_lem fresh some_left = ground arith

  read_behind_lem :
      r.err ≡ none
      → r.partial_trailer_data ≡ []
      → r.has_read_trailers ≡ true
      → read decompressor size r
        ≡ (let t = Io.read size r.body in adjusted (body_read t r, t.bytes, t.error))
  unfolding read do_read read_data
  read_behind_lem fresh none_left done = ground arith

Gave-All :
    {size : ℕ} {r : Reader} {bs : Bytes} {t : Transfer}
    → Gave size r bs t
    → All IsByte bs
    → All IsByte t.bytes
Gave-All (part c more r' le e d less store) h =
    subst (All IsByte) (ap (take (length c)) e ∙ take-append_length (length c) c more refl)
      (All-take IsByte (length c) _ h)
Gave-All (all c r' le e d) h = subst (All IsByte) e h

module _ (decompressor : Option Decompressor) (payload : Bytes) (h : Header) where
  -- Every call goes on from where the reading is.
  read-Phase :
      (goal : Header) (size : ℕ) (r : ResponseReader) {out : Bytes}
      → 0 < size
      → IsU32 (length payload)
      → read_mime_header eof (payload ++ codes "\r\n") ≡ parsed h []
      → Phase decompressor payload h goal r out
      → Progress decompressor payload h goal size
          (todo decompressor payload h r)
          out
          (read decompressor size r)
  read-Phase goal size r {out} pos small parses
        (in_data fresh none_left before_trailers g d e scanned v bytes) =
      subst (Progress decompressor payload h goal size (todo decompressor payload h r) out)
        (sym (
          read_data_lem decompressor size r fresh none_left before_trailers v
            (Gave-All (read-Gave size pos d) bytes)))
        (data_step decompressor payload h goal size r out small parses fresh none_left
          before_trailers g (ap (scan r.cursor) (sym e) ∙ scanned) v (subst (All IsByte) e bytes)
          (subst (λ q. Gave size r.body q (Io.read size r.body)) e (read-Gave size pos d)))
  read-Phase goal size r {out} pos small parses
        (in_trailers fresh some_left before_trailers has_data' g d whole e) =
      subst (Progress decompressor payload h goal size (todo decompressor payload h r) out)
        (sym (read_trailers_lem decompressor size r fresh some_left))
        (subst
          (λ q.
            Progress decompressor payload h goal size (todo decompressor payload h r) q
              (adjusted (read_behind_trailers decompressor size r)))
          (sym e) (read_behind decompressor payload h goal size r pos small parses fresh g d whole))
  read-Phase goal size r {out} pos small parses (behind_trailers fresh none_left done g d e) =
      subst (Progress decompressor payload h goal size (todo decompressor payload h r) out)
        (sym (read_behind_lem decompressor size r fresh none_left done))
        (subst
          (λ q. Progress decompressor payload h goal size (todo decompressor payload h r) q (
            adjusted (
              body_read (Io.read size r.body) r,
              (Io.read size r.body).bytes,
              (Io.read size r.body).error,
            )))
          (sym e)
          (behind_step decompressor payload h goal size (todo decompressor payload h r) r
            (read-Gave size pos d) (omega arith) fresh g none_left done))

-- What a call that fails leaves: the trailers, if it is the end.
abbrev pub ended_with : ResponseReader → Bytes → Error → Option (Bytes × Header)
ended_with r bs eof = some (bs, r.trailers)
ended_with r bs e = none

module _ (decompressor : Option Decompressor) where
  -- Reading to the end with one buffer size, as `io.ReadAll` would, with the trailers that are there
  -- then; `none` if the calls do not suffice, or one of them fails.
  unfoldable pub read_to_end : ℕ → ℕ → ResponseReader → Option (Bytes × Header)
  read_to_end zero size r = none
  read_to_end (suc calls) size r = elim (read decompressor size r) [
    | none ↦ none
    | some (r', bs, none) ↦ Option.map (λ o. (bs ++ o.0, o.1)) (read_to_end calls size r')
    | some (r', bs, some e) ↦ ended_with r' bs e
  ]

  read_to_end-Phase :
      (payload : Bytes) {h : Header} (calls size : ℕ) (goal : Header) (r : ResponseReader)
      {out : Bytes}
      → 0 < size
      → IsU32 (length payload)
      → read_mime_header eof (payload ++ codes "\r\n") ≡ parsed h []
      → Phase decompressor payload h goal r out
      → todo decompressor payload h r < calls
      → read_to_end calls size r ≡ some (out, goal)
  unfolding read_to_end
  read_to_end-Phase payload {h} zero size goal r pos small parses p l = absurd (omega arith)
  read_to_end-Phase payload {h} (suc calls) size goal r {out} pos small parses p l =
      step (read decompressor size r)
        (read-Phase decompressor payload h goal size r pos small parses p)
        (λ r' back q less.
          read_to_end-Phase payload calls size goal r' {out = back} pos small parses q less)
    where
      step :
          (o : Outcome)
          → Progress decompressor payload h goal size (todo decompressor payload h r) out o
          → ((r' : ResponseReader) (back : Bytes)
              → Phase decompressor payload h goal r' back
              → todo decompressor payload h r' < calls
              → read_to_end calls size r' ≡ some (back, goal))
          → ◌≡◌ {A = Option (Bytes × Header)}
              (elim o [
                | none ↦ none
                | some (r', bs, none) ↦
                    Option.map (λ o. (bs ++ o.0, o.1)) (read_to_end calls size r')
                | some (r', bs, some e) ↦ ended_with r' bs e
              ])
              (some (out, goal))
      step _ (handed_out {r'} front back le e q less) later =
          rw (later r' back q (omega arith)) (ap (λ bs. some (bs, goal)) (sym e))
      step _ (finished e g f) later = cc (e, g)

  -- The body gives data frames and then one trailer frame, of bytes, in any chunks, and the frame's text
  -- with a blank line behind it is a header. Then reading to the end, with any buffer that is not empty,
  -- gives the data frames, byte for byte, and then io.EOF, and the trailers are that header's fields,
  -- added to those that were there.
  pub read_to_end_lem :
      (calls size : ℕ) (trailers : Header) (ms : List (ℕ × Bytes)) (payload : Bytes) {h : Header}
      {body : Reader}
      → 0 < size
      → AreDataFrames ms
      → IsU32 (length payload)
      → All IsByte (stream ms ++ frame 128 payload)
      → Delivers body (stream ms ++ frame 128 payload) eof
      → read_mime_header eof (payload ++ codes "\r\n") ≡ parsed h []
      → weight body < calls
      → read_to_end calls size (new_response_reader body trailers)
        ≡ some (stream ms, populate_trailers trailers h)
  read_to_end_lem calls size trailers ms payload {h} {body} pos frames small bytes d parses enough =
      read_to_end-Phase payload calls size (populate_trailers trailers h)
        (new_response_reader body trailers) pos small parses
        (in_data refl refl refl refl d refl (scanned) start-IsCursor bytes) (omega arith)
    where
      scanned : scan start (stream ms ++ frame 128 payload) ≡ (start, length (stream ms))
      scanned =
          scan-stream ms (frame 128 payload) frames
          ∙ ap (λ q. (q.0, length (stream ms) + q.1))
              (ap (scan start) (sym (append-nil (frame 128 payload)))
                ∙ scan_trailer 128 payload [] (omega arith))
          ∙ ap (λ n. (start, n)) (omega arith)

      start-IsCursor : IsCursor start
      start-IsCursor = record { partial = omega arith; between = λ e. refl }
