-- ===== src/Grpcweb/ResponseReader/Steps.antt =====
-- Calls of `Read` that get data.
use go_grpc_http.Common.{
  ℕ, ◌+◌, ◌<◌, ◌≤◌, false, Option, none, some, [], ◌++◌, length, take, drop, Bytes, codes, ◌≡◌,
  refl, sym, ap, ◌∙◌, ◌⊎◌, inl, inr, arith, subst, length-append, length-drop, take_all, drop_all,
  All, All-drop, append-nil, take-append_length, drop-append_length, take-append_less,
  drop-append_less,
}
use go_grpc_http.Errors.{Error, eof}
use go_grpc_http.Io.{Reader, Transfer}
use go_grpc_http.Io.Delivery.{Delivers}
use go_grpc_http.Io.Reading.{weight, Gave, part, all}
use go_grpc_http.Proto.{IsByte, IsU32}
use go_grpc_http.Proto.Frames.{frame, length-frame}
use go_grpc_http.Http.{Header}
use go_grpc_http.Http.Mime.{parsed, read_mime_header}
use go_grpc_http.Grpcweb.Consume.{Cursor, start}
use go_grpc_http.Grpcweb.Consume.Automaton.{scan, IsCursor}
use go_grpc_http.Grpcweb.Consume.Bytewise.{scan-IsCursor}
use go_grpc_http.Grpcweb.Consume.Chunks.{scan_cases}
use go_grpc_http.Grpcweb.ResponseReader.{
  handed, ResponseReader, Decompressor, populate_trailers, body_read, consumed, kept,
}
use go_grpc_http.Grpcweb.ResponseReader.Phases.{
  adjusted, not_empty, has_data, adjust_data, in_data, Progress, handed_out, todo,
}
use go_grpc_http.Grpcweb.ResponseReader.Handed.{with_rest, begun, handed_whole}

module _ (decompressor : Option Decompressor) (payload : Bytes) (h : Header) where
  -- The trailer frame begins inside the buffer.
  cut_step :
      (goal : Header) (size : ℕ) (r : ResponseReader) (out c more : Bytes) (r' : Reader)
      (e : Option Error)
      → IsU32 (length payload)
      → read_mime_header eof (payload ++ codes "\r\n") ≡ parsed h []
      → r.err ≡ none
      → r.partial_trailer_data ≡ []
      → r.has_read_trailers ≡ false
      → populate_trailers r.trailers h ≡ goal
      → (e ≡ none) ⊎ (e ≡ some eof)
      → length c ≤ size
      → Delivers r' more eof
      → weight r' + length c ≤ weight r.body
      → c ++ more ≡ out ++ frame 128 payload
      → length out < length c
      → let t : Transfer = record { bytes = c; error = e; rest = r' } in
        Progress decompressor payload h goal size
          (todo decompressor payload h r)
          out
          (adjusted (consumed decompressor t (body_read t r) (start, length out)))
  unfolding consumed
  cut_step goal size r out c more r' e small parses fresh none_left before_trailers g err le d less
        whole cut =
      let n = length out in
      let p = drop n c in
      let t : Transfer = record { bytes = c; error = e; rest = r' } in
      let front : take n c ≡ out =
        sym (take-append_less n c more (omega arith))
        ∙ ap (take n) whole
        ∙ take-append_length n out (frame 128 payload) refl in
      let back : p ++ more ≡ frame 128 payload =
        sym (drop-append_less n c more (omega arith))
        ∙ ap (drop n) whole
        ∙ drop-append_length n out (frame 128 payload) refl in
      let some_left : 0 < length p = omega (arith, length-drop n c) in
      subst
        (λ q.
          Progress decompressor payload h goal size (todo decompressor payload h r) out
            (adjusted (handed decompressor t n (with_rest decompressor payload h r t start q))))
        (sym (ap (λ q. q ++ p) none_left))
        (begun decompressor payload h goal size (todo decompressor payload h r)
          (with_rest decompressor payload h r t start p) out t (omega arith) small parses fresh
          (not_empty p some_left) before_trailers (has_data r.has_read_data c (omega arith)) g err
          le (omega arith) d back front (omega (arith, length-drop n c)))

  -- The buffer holds data alone.
  whole_step :
      (goal : Header) (size : ℕ) (r : ResponseReader) (out c back : Bytes) (r' : Reader)
      (d : Cursor)
      → r.err ≡ none
      → r.partial_trailer_data ≡ []
      → r.has_read_trailers ≡ false
      → populate_trailers r.trailers h ≡ goal
      → length c ≤ size
      → Delivers r' (back ++ frame 128 payload) eof
      → weight r' < weight r.body
      → out ≡ c ++ back
      → scan d (back ++ frame 128 payload) ≡ (start, length back)
      → IsCursor d
      → All IsByte (back ++ frame 128 payload)
      → let t : Transfer = record { bytes = c; error = none; rest = r' } in
        Progress decompressor payload h goal size
          (todo decompressor payload h r)
          out
          (adjusted (consumed decompressor t (body_read t r) (d, length c)))
  unfolding consumed
  whole_step goal size r out c back r' d fresh none_left before_trailers g le more less e scanned v
        bytes =
      let t : Transfer = record { bytes = c; error = none; rest = r' } in
      let empty : r.partial_trailer_data ++ drop (length c) c ≡ [] =
        ap (λ q. q ++ drop (length c) c) none_left ∙ drop_all (length c) c (omega arith) in
      subst
        (λ q.
          Progress decompressor payload h goal size (todo decompressor payload h r) out (
            adjusted (handed decompressor t (length c) (with_rest decompressor payload h r t d q))))
        (sym empty)
        (subst
          (λ o.
            Progress decompressor payload h goal size (todo decompressor payload h r) out
              (adjusted o))
          (sym (
            handed_whole decompressor payload h t (length c)
              (with_rest decompressor payload h r t d []) refl))
          (subst
            (λ o.
              Progress decompressor payload h goal size (todo decompressor payload h r) out
                (some (kept (with_rest decompressor payload h r t d []) o)))
            (sym (
              adjust_data (with_rest decompressor payload h r t d []) (take (length c) c)
                before_trailers
              ∙ ap (λ q. (q, none)) (take_all (length c) c (omega arith))))
            (handed_out c back le e (in_data fresh refl before_trailers g more refl scanned v bytes)
              (omega arith))))

  -- A call in front of the trailers.
  pub data_step :
      (goal : Header) (size : ℕ) (r : ResponseReader) (out : Bytes) {t : Transfer}
      → IsU32 (length payload)
      → read_mime_header eof (payload ++ codes "\r\n") ≡ parsed h []
      → r.err ≡ none
      → r.partial_trailer_data ≡ []
      → r.has_read_trailers ≡ false
      → populate_trailers r.trailers h ≡ goal
      → scan r.cursor (out ++ frame 128 payload) ≡ (start, length out)
      → IsCursor r.cursor
      → All IsByte (out ++ frame 128 payload)
      → Gave size r.body (out ++ frame 128 payload) t
      → Progress decompressor payload h goal size
          (todo decompressor payload h r)
          out
          (adjusted (consumed decompressor t (body_read t r) (scan r.cursor t.bytes)))
  data_step goal size r out small parses fresh none_left before_trailers g scanned v bytes
        (part c more r' le e d less store) =
      elim (scan_cases r.cursor c more out (frame 128 payload) (sym e)
        (ap (scan r.cursor) (sym e) ∙ scanned)) [
          | inl (k, back, s, e1, e2, later) ↦
              let t : Transfer = record { bytes = c; error = none; rest = r' } in
              subst
                (λ q.
                  Progress decompressor payload h goal size (todo decompressor payload h r) out
                    (adjusted (consumed decompressor t (body_read t r) q)))
                (sym s)
                (whole_step goal size r out c back r' k fresh none_left before_trailers g le
                  (subst (λ q. Delivers r' q eof) e2 d) less e1 (ap (scan k) (sym e2) ∙ later)
                  (subst (λ q. IsCursor q.0) s (scan-IsCursor c r.cursor v))
                  (subst (All IsByte) (rest_of c more back e e1 e2)
                    (All-drop IsByte (length c) (out ++ frame 128 payload) bytes)))
          | inr (s, cut) ↦
              let t : Transfer = record { bytes = c; error = none; rest = r' } in
              subst
                (λ q.
                  Progress decompressor payload h goal size (todo decompressor payload h r) out
                    (adjusted (consumed decompressor t (body_read t r) q)))
                (sym s)
                (cut_step goal size r out c more r' none small parses fresh none_left
                  before_trailers g (inl refl) le d store (sym e) cut)
        ]
    where
      rest_of :
          (c more back : Bytes)
          → out ++ frame 128 payload ≡ c ++ more
          → out ≡ c ++ back
          → more ≡ back ++ frame 128 payload
          → drop (length c) (out ++ frame 128 payload) ≡ back ++ frame 128 payload
      rest_of c more back e e1 e2 =
          ap (drop (length c)) e ∙ drop-append_length (length c) c more refl ∙ e2
  data_step goal size r out small parses fresh none_left before_trailers g scanned v bytes
        (all c r' le e (inl none_left')) =
      absurd (
        omega (
          arith,
          ap length none_left',
          length-append out (frame 128 payload),
          length-frame 128 payload,
        ))
  data_step goal size r out small parses fresh none_left before_trailers g scanned v bytes
        (all c r' le e (inr (d, store))) =
      let t : Transfer = record { bytes = c; error = some eof; rest = r' } in
      subst
        (λ q.
          Progress decompressor payload h goal size (todo decompressor payload h r) out
            (adjusted (consumed decompressor t (body_read t r) q)))
        (sym (ap (scan r.cursor) (sym e) ∙ scanned))
        (cut_step goal size r out c [] r' (some eof) small parses fresh none_left before_trailers g
          (inr refl) le d (omega arith) (append-nil c ∙ sym e)
          (omega
            (arith, ap length e, length-append out (frame 128 payload), length-frame 128 payload)))
