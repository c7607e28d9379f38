-- ===== src/Grpcweb/ResponseReader/Trailers.antt =====
-- `readFullTrailers` on a whole trailer frame.
use go_grpc_http.Common.{
  ℕ, ◌+◌, ◌<◌, ◌≤◌, false, Option, none, [], ◌∷◌, ◌++◌, length, Bytes, codes, ◌≡◌, refl, sym, ap,
  ◌∙◌, inl, inr, arith, subst, length-append, take_all, drop_all,
}
use go_grpc_http.Errors.{eof}
use go_grpc_http.Io.{Reader, copy_n}
use go_grpc_http.Io.Delivery.{Delivers, chunk, copy_n_cases}
use go_grpc_http.Proto.{IsU32, make_message_header}
use go_grpc_http.Io.Reading.{weight, copy_n-weight, copy_n_full-weight}
use go_grpc_http.Proto.Headers.{length-make_message_header}
use go_grpc_http.Proto.Frames.{frame}
use go_grpc_http.Http.{Header}
use go_grpc_http.Http.Mime.{parsed, read_mime_header}
use go_grpc_http.Grpcwebsocket.Sending.{copy_header}
use go_grpc_http.Grpcweb.Consume.Framing.{announced_lem}
use go_grpc_http.Grpcweb.ResponseReader.{
  ResponseReader, Decompressor, trailers_read, peeked, frame_read, limited_read, header_checked,
  read_full_trailers, populate_trailers, flag_set, compressed_flag,
}

pub not_compressed : (n : ℕ) → flag_set compressed_flag (make_message_header 128 n) ≡ false
unfolding make_message_header
not_compressed n = refl

copy_payload :
    {r : Reader} (payload : Bytes)
    → Delivers r payload eof
    → (r' : Reader) × Delivers r' [] eof
      × (copy_n (length payload) r ≡ record { bytes = payload; error = none; rest = r' })
copy_payload payload d = elim (copy_n_cases (length payload) d) [
  | inl (r', le, more, p) ↦ (
    r',
    subst (λ bs. Delivers r' bs eof) (drop_all (length payload) payload (omega arith)) more,
    p
        ∙ ap (λ bs. record { bytes = bs; error = none; rest = r' })
            (take_all (length payload) payload (omega arith)),
  )
  | inr (r', lt, p) ↦ absurd (omega arith)
]

length_partial :
    (partial bs : Bytes) (payload : Bytes)
    → partial ++ bs ≡ frame 128 payload
    → length partial ≤ 5 + length payload
unfolding frame make_message_header
length_partial partial bs payload e = omega (arith, ap length e, length-append partial bs)

module _ (decompressor : Option Decompressor) where
  limited_read_lem :
      (r : ResponseReader) (partial payload : Bytes) {h : Header} (body : Reader)
      → IsU32 (length payload)
      → length partial ≤ 5 + length payload
      → read_mime_header eof (payload ++ codes "\r\n") ≡ parsed h []
      → limited_read decompressor partial
          (make_message_header 128 (length payload))
          (record { bytes = payload; error = none; rest = body })
          r
        ≡ (record r { body = body; trailers = populate_trailers r.trailers h }, none)
  unfolding limited_read frame_read peeked trailers_read
  limited_read_lem r partial payload body small le parses =
      rw (not_compressed (length payload))
        (rw (announced_lem 128 (length payload) small) (rw (parses, peeked) (ground arith)))

  -- The stored data is the beginning of a trailer frame, and the body delivers the rest of it. Then the
  -- trailers are what the frame's text says, and the body is at its end.
  pub read_full_trailers_lem :
      (r : ResponseReader) {bs : Bytes} (payload : Bytes) {h : Header}
      → Delivers r.body bs eof
      → r.partial_trailer_data ++ bs ≡ frame 128 payload
      → IsU32 (length payload)
      → read_mime_header eof (payload ++ codes "\r\n") ≡ parsed h []
      → (body : Reader) × Delivers body [] eof
        × (weight body < weight r.body + length r.partial_trailer_data)
        × (read_full_trailers decompressor r
            ≡ (record r { body = body; trailers = populate_trailers r.trailers h }, none))
  unfolding read_full_trailers header_checked frame
  read_full_trailers_lem r {bs} payload {h} d whole small parses =
      let (r1, d1, first) = copy_header 128 (length payload) payload (chunk d (sym whole)) in
      let (r2, d2, second) = copy_payload payload d1 in
      let partial = r.partial_trailer_data in
      let header = make_message_header 128 (length payload) in
      (
        r2,
        d2,
        omega (
          arith,
          rw first at (copy_n_full-weight 5 ((partial, none) ∷ r.body)),
          rw second at (copy_n-weight (length payload) r1),
          length-make_message_header 128 (length payload),
        ),
        ap (λ t. header_checked decompressor partial t r) first
            ∙ ap
                (λ n.
                  limited_read decompressor partial header (copy_n n r1) (record r { body = r1 }))
                (announced_lem 128 (length payload) small)
            ∙ ap (λ t. limited_read decompressor partial header t (record r { body = r1 })) second
            ∙ limited_read_lem (record r { body = r1 }) partial payload r2 small
                (length_partial partial bs payload whole) parses,
      )
