-- ===== src/Grpcweb/ResponseReader/Response.antt =====
-- A gRPC-Web response from the gRPC server's calls to the gRPC client: internal/grpcweb/response_writer.go
-- writes what internal/grpcweb/response_reader.go reads.
use go_grpc_http.Common.{
  ℕ, ◌<◌, true, Option, none, some, List, [], ◌∷◌, ◌++◌, if◌then◌else◌, equal, equal_iff, length,
  Bytes, codes, ◌≡◌, refl, sym, ap, ◌∙◌, subst, All, map, append-nil, Bool-cases, inl, inr,
}
use go_grpc_http.Errors.{Error, eof}
use go_grpc_http.Io.{Reader}
use go_grpc_http.Io.Delivery.{Delivers}
use go_grpc_http.Io.Reading.{weight}
use go_grpc_http.Proto.{IsByte, IsU32}
use go_grpc_http.Proto.Frames.{frame}
use go_grpc_http.Http.{Header, values, store, or_empty}
use go_grpc_http.Http.Laws.{values-store}
use go_grpc_http.Http.Mime.Sent.{sent, IsField}
use go_grpc_http.Http.Mime.Sorting.{IsMap}
use go_grpc_http.Http.Mime.RoundTrip.{IsCanonical, read_mime_header-write_header_bytes}
use go_grpc_http.Http.Wire.{write_header_bytes}
use go_grpc_http.Trailers.{split_trailers}
use go_grpc_http.Grpcweb.Consume.Framing.{AreDataFrames, stream}
use go_grpc_http.Grpcweb.ResponseReader.{Decompressor, new_response_reader, populate_trailers}
use go_grpc_http.Grpcweb.ResponseReader.Delivery.{read_to_end, read_to_end_lem}
use go_grpc_http.Grpcweb.ResponseWriter.{Call}
use go_grpc_http.Grpcweb.ResponseWriter.Frames.{body, concat, response, response-body}

populate_one :
    (t : Header) (k j : Bytes) (vs : List Bytes) (rest : Option (List Bytes))
    → (equal k j ≡ true → rest ≡ none)
    → or_empty (values (store t k (or_empty (values t k) ++ vs)) j) ++ or_empty rest
      ≡ or_empty (values t j) ++ or_empty (if equal k j then some vs else rest)
populate_one t k j vs rest lone =
    ap (λ o. or_empty o ++ or_empty rest) (values-store t k j (or_empty (values t k) ++ vs))
    ∙ elim (Bool-cases (equal k j)) [
      | inl e ↦
          rw (e, lone e)
            (append-nil (or_empty (values t k) ++ vs)
              ∙ ap (λ i. or_empty (values t i) ++ vs) ((equal_iff k j).0 e))
      | inr e ↦ rw e refl
    ]

populate_trailers-values :
    (t h : Header) (j : Bytes)
    → IsCanonical h
    → or_empty (values (populate_trailers t h) j) ≡ or_empty (values t j) ++ or_empty (values h j)
unfolding populate_trailers values
populate_trailers-values t [] j c = sym (append-nil (or_empty (values t j)))
populate_trailers-values t ((k, vs) ∷ h) j (u, a) =
    ap (λ i. or_empty (values (populate_trailers (store t i (or_empty (values t i) ++ vs)) h) j))
      a.0
    ∙ populate_trailers-values (store t k (or_empty (values t k) ++ vs)) h j (u.1, a.1)
    ∙ populate_one t k j vs (values h j)
        (λ e. subst (λ i. values h i ≡ none) ((equal_iff k j).0 e) u.0)

module _ (write_error : List Call → Bytes → Option Error) (decompressor : Option Decompressor) where
  -- The gRPC server announces trailers and writes data frames, in any pieces, the connection does not
  -- fail, and the trailers at the end are a map of canonical tokens with values of header bytes, in at
  -- most 2^32 - 1 bytes. The client gets the body in any chunks. Then reading it to the end, with any
  -- buffer that is not empty, gives the data frames, byte for byte, and then io.EOF, and the client's
  -- trailers have, under every key, the values of the server's trailers, in their order, each without
  -- the blanks at its ends.
  pub response-read_to_end :
      (h : Header) (status : ℕ) (bufs : List Bytes) (hdr : Header) {announced : List Bytes}
      (ms : List (ℕ × Bytes)) (calls size : ℕ) {r : Reader}
      → values h (codes "Trailer") ≡ some announced
      → ((cs : List Call) (bs : Bytes) → write_error cs bs ≡ none)
      → concat bufs ≡ stream ms
      → AreDataFrames ms
      → IsMap (split_trailers hdr announced).1
      → All IsField (split_trailers hdr announced).1
      → IsU32 (length (write_header_bytes (split_trailers hdr announced).1))
      → All IsByte (body (response write_error h status bufs hdr).0.calls)
      → Delivers r (body (response write_error h status bufs hdr).0.calls) eof
      → 0 < size
      → weight r < calls
      → (got : Header) × (read_to_end decompressor calls size (new_response_reader r [])
          ≡ some (stream ms, got))
        × ((k : Bytes)
            → or_empty (values got k)
              ≡ map sent (or_empty (values (split_trailers hdr announced).1 k)))
  unfolding values
  response-read_to_end h status bufs hdr {announced} ms calls size {r} a never e frames u fields
        small bytes d pos enough =
      let trailers = (split_trailers hdr announced).1 in
      let payload = write_header_bytes trailers in
      let whole : body (response write_error h status bufs hdr).0.calls
          ≡ stream ms ++ frame 128 payload =
        (response-body write_error h status bufs hdr a never small).1
        ∙ ap (λ x. x ++ frame 128 payload) e in
      let (got, parses, canonical, same) =
        read_mime_header-write_header_bytes eof trailers fields u in
      (
        populate_trailers [] got,
        read_to_end_lem decompressor calls size [] ms payload pos frames small
            (subst (All IsByte) whole bytes) (subst (λ bs. Delivers r bs eof) whole d) parses
            enough,
        λ k. populate_trailers-values [] got k canonical ∙ same k,
      )
