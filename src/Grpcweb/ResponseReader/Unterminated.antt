-- ===== src/Grpcweb/ResponseReader/Unterminated.antt =====
-- A trailer frame whose last line has no end.
use go_grpc_http.Common.{
  ℕ, zero, suc, true, false, Option, none, some, [], ◌∷◌, ◌++◌, length, Bytes, codes, ◌≡◌, refl, ap,
  ◌∙◌, arith,
}
use go_grpc_http.Errors.{eof}
use go_grpc_http.Io.{copy_n, copy_n_full}
use go_grpc_http.Proto.{IsU32, make_message_header}
use go_grpc_http.Proto.Frames.{frame}
use go_grpc_http.Http.{Header}
use go_grpc_http.Http.Mime.{refused, read_mime_header}
use go_grpc_http.Grpcweb.Consume.{Cursor}
use go_grpc_http.Grpcweb.Consume.Framing.{announced_lem}
use go_grpc_http.Grpcweb.ResponseReader.{
  ResponseReader, Decompressor, frame_read, peeked, limited_read, header_checked,
  read_full_trailers, passed_on, read_behind_trailers, adjust_result, read,
}
use go_grpc_http.Grpcweb.ResponseReader.Trailers.{not_compressed}
use go_grpc_http.Grpcweb.ResponseReader.Delivery.{read_trailers_lem, read_to_end}
use go_grpc_http.Grpcweb.ResponseReader.Phases.{adjusted}

-- A reader that stored a whole trailer frame, behind some data, and whose body is at its end.
abbrev pub at_trailers : Header → Cursor → ℕ → Bytes → ResponseReader
at_trailers trailers c b bs = record {
  body = [];
  trailers = trailers;
  err = none;
  cursor = c;
  partial_trailer_data = frame 128 (b ∷ bs);
  has_read_data = true;
  has_read_trailers = false;
}

copy_stored :
    (b : ℕ) (bs : Bytes)
    → copy_n_full 5 ((frame 128 (b ∷ bs), none) ∷ []) ≡ record {
      bytes = make_message_header 128 (length (b ∷ bs));
      error = none;
      rest = (b ∷ bs, none) ∷ [];
    }
unfolding frame make_message_header copy_n_full copy_n
copy_stored b bs = ground arith

copy_rest :
    (b : ℕ) (bs : Bytes)
    → copy_n (length (b ∷ bs)) ((b ∷ bs, none) ∷ [])
      ≡ record { bytes = b ∷ bs; error = none; rest = [] }
unfolding copy_n
copy_rest b bs = ground arith

module _ (decompressor : Option Decompressor) (trailers : Header) (c : Cursor) (b : ℕ)
    (bs : Bytes) where
  trailers_refused :
      IsU32 (length (b ∷ bs))
      → read_mime_header eof ((b ∷ bs) ++ codes "\r\n") ≡ refused eof
      → read_full_trailers decompressor (at_trailers trailers c b bs)
        ≡ (at_trailers trailers c b bs, some eof)
  unfolding read_full_trailers header_checked limited_read frame_read peeked
  trailers_refused small e =
      let r = at_trailers trailers c b bs in
      let partial = frame 128 (b ∷ bs) in
      let header = make_message_header 128 (length (b ∷ bs)) in
      let rest : ResponseReader = record r { body = (b ∷ bs, none) ∷ [] } in
      ap (λ t. header_checked decompressor partial t r) (copy_stored b bs)
      ∙ ap (λ n. limited_read decompressor partial header (copy_n n ((b ∷ bs, none) ∷ [])) rest)
          (announced_lem 128 (length (b ∷ bs)) small)
      ∙ ap (λ t. limited_read decompressor partial header t rest) (copy_rest b bs)
      ∙ rw (not_compressed (length (b ∷ bs))) (rw (e, peeked) refl)

  once :
      (size : ℕ)
      → IsU32 (length (b ∷ bs))
      → read_mime_header eof ((b ∷ bs) ++ codes "\r\n") ≡ refused eof
      → read decompressor size (at_trailers trailers c b bs)
        ≡ some (at_trailers trailers c b bs, [], none)
  unfolding read_behind_trailers passed_on adjust_result frame make_message_header
  once size small e =
      read_trailers_lem decompressor size (at_trailers trailers c b bs) refl refl
      ∙ ap (λ o. adjusted (passed_on size o)) (trailers_refused small e)

  to_end_zero : (size : ℕ) → read_to_end decompressor 0 size (at_trailers trailers c b bs) ≡ none
  unfolding read_to_end
  to_end_zero size = refl

  to_end_again :
      (size calls : ℕ)
      → read decompressor size (at_trailers trailers c b bs)
        ≡ some (at_trailers trailers c b bs, [], none)
      → read_to_end decompressor calls size (at_trailers trailers c b bs) ≡ none
      → read_to_end decompressor (suc calls) size (at_trailers trailers c b bs) ≡ none
  unfolding read_to_end
  to_end_again size calls e later = ground arith

  -- The trailer frame is stored whole, and the reading of its text comes to an io.EOF, as where its last
  -- line has no `\r\n`. Then `Read` returns no bytes and no error, and changes nothing: reading to the
  -- end never ends, whatever the buffer and however many calls are made.
  pub read_unterminated :
      (size : ℕ)
      → IsU32 (length (b ∷ bs))
      → read_mime_header eof ((b ∷ bs) ++ codes "\r\n") ≡ refused eof
      → (read decompressor size (at_trailers trailers c b bs)
          ≡ some (at_trailers trailers c b bs, [], none))
        × ((calls : ℕ) → read_to_end decompressor calls size (at_trailers trailers c b bs) ≡ none)
  read_unterminated size small e = (once size small e, never)
    where
      never : (calls : ℕ) → read_to_end decompressor calls size (at_trailers trailers c b bs) ≡ none
      never zero = to_end_zero size
      never (suc calls) = to_end_again size calls (once size small e) (never calls)
