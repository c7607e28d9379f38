-- ===== src/Client/Proxy/Response/Served.antt =====
-- A gRPC-Web response of the server, through `modifyResponse`.
use go_grpc_http.Common.{
  ℕ, ◌<◌, true, Option, none, some, List, [], ◌∷◌, ◌++◌, equal, length, ◌==◌, Bytes, codes, ◌≡◌,
  refl, ap, ◌∙◌, arith, All, map, Bool-cases, inl, inr,
}
use mathlib.Core.Option
use go_grpc_http.Errors.{Error, eof, ok}
use go_grpc_http.Io.{Reader}
use go_grpc_http.Io.Delivery.{Delivers}
use go_grpc_http.Io.Reading.{weight}
use go_grpc_http.Proto.{IsByte, IsU32}
use go_grpc_http.Http.{Header, values, or_empty, first_value, get, set, del, canonical_header_key}
use go_grpc_http.Http.Laws.{values-set, values-del}
use go_grpc_http.Http.Mime.Sent.{sent, IsField}
use go_grpc_http.Http.Mime.Sorting.{IsMap}
use go_grpc_http.Http.Wire.{write_header_bytes}
use go_grpc_http.Http.Response.{Response}
use go_grpc_http.Httputils.{extract_response_error}
use go_grpc_http.Trailers.{split_trailers}
use go_grpc_http.Strings.{split2, index, has_prefix}
use go_grpc_http.Grpcweb.Consume.Framing.{AreDataFrames, stream}
use go_grpc_http.Grpcweb.ResponseWriter.{Call, prepared, web_content_type}
use go_grpc_http.Grpcweb.ResponseWriter.Frames.{body, concat, response}
use go_grpc_http.Grpcweb.ResponseReader.{ResponseReader, new_response_reader}
use go_grpc_http.Grpcweb.ResponseReader.Delivery.{read_to_end}
use go_grpc_http.Grpcweb.ResponseReader.Response.{response-read_to_end}
use go_grpc_http.Client.NonBufferingWriter.{dont_flush_headers_header_key}
use go_grpc_http.Client.Proxy.{grpc_content_type}
use go_grpc_http.Client.Proxy.ContentType.{grpc_content_type-web_content_type}
use go_grpc_http.Client.Proxy.Response.{
  transcoded, Modified, mark, is_grpc_web, converted, error_checked, transcode, modify_response,
}

-- A gRPC content type, plain or with a subtype.
pub data IsGrpc : Bytes → Type 0 where
  bare : IsGrpc (codes "application/grpc")
  with_subtype : (c : ℕ) (cs : Bytes) → IsGrpc (codes "application/grpc" ++ (codes "+" ++ c ∷ cs))

IsGrpc-web : {ct : Bytes} → IsGrpc ct → grpc_content_type (web_content_type ct) ≡ ct
IsGrpc-web bare = (grpc_content_type-web_content_type 0 []).0
IsGrpc-web (with_subtype c cs) = (grpc_content_type-web_content_type c cs).1

web_is_web : {ct : Bytes} → IsGrpc ct → is_grpc_web (web_content_type ct) ≡ true
unfolding is_grpc_web web_content_type split2 index has_prefix equal
web_is_web bare = refl
web_is_web (with_subtype c cs) = refl

get-prepared :
    (h : Header)
    → get (prepared h) (codes "Content-Type") ≡ web_content_type (get h (codes "Content-Type"))
unfolding prepared get canonical_header_key equal
get-prepared h =
    let key = codes "Content-Type" in
    let h' = del h (codes "Trailer") in
    let typed = set h' key (web_content_type (get h' key)) in
    ap first_value (
      values-del typed (codes "Content-Length") key
      ∙ values-set h' key (web_content_type (get h' key)) key)
    ∙ ap (λ vs. web_content_type (first_value vs)) (values-del h (codes "Trailer") key)

get-mark :
    (n : Option ℕ) (h : Header)
    → get (mark n h) (codes "Content-Type") ≡ get h (codes "Content-Type")
unfolding mark get canonical_header_key equal
get-mark none h = refl
get-mark (some n) h = elim (Bool-cases (n == 0)) [
  | inl e ↦ rw e (
      ap first_value
        (values-set h dont_flush_headers_header_key (codes "true") (codes "Content-Type")))
  | inr e ↦ rw e refl
]

get-set : (h : Header) (v : Bytes) → get (set h (codes "Content-Type") v) (codes "Content-Type") ≡ v
unfolding get canonical_header_key equal
get-set h v = ap first_value (values-set h (codes "Content-Type") v (codes "Content-Type"))

transcode-web :
    (resp : Response) (h : Header) {ct : Bytes}
    → IsGrpc ct
    → get h (codes "Content-Type") ≡ web_content_type ct
    → transcode resp h ≡ record {
      header = set h (codes "Content-Type") ct;
      body = Option.map (λ r. transcoded (new_response_reader r resp.trailer)) resp.body;
    }
unfolding transcode
transcode-web resp h {ct} grpc e =
    ap (λ t. converted resp h (grpc_content_type t) (is_grpc_web t)) e
    ∙ ap (converted resp h (grpc_content_type (web_content_type ct))) (web_is_web grpc)
    ∙ ap (λ t. converted resp h t true) (IsGrpc-web grpc)

no_error : (resp : Response) → resp.status_code < 400 → extract_response_error resp ≡ (none, resp)
unfolding extract_response_error
no_error resp h = ground arith

modified_to :
    (resp : Response) {r : Reader} {ct : Bytes}
    → resp.status_code < 400
    → IsGrpc ct
    → get resp.header (codes "Content-Type") ≡ web_content_type ct
    → resp.body ≡ some r
    → resp.trailer ≡ []
    → modify_response resp
      ≡ ok (record {
        header = set (mark resp.content_length resp.header) (codes "Content-Type") ct;
        body = some (transcoded (new_response_reader r []));
      })
unfolding modify_response
modified_to resp {r} {ct} below grpc e has_body no_trailer =
    let h = mark resp.content_length resp.header in
    ap error_checked (no_error resp below)
    ∙ ap ok (transcode-web resp h grpc (get-mark resp.content_length resp.header ∙ e))
    ∙ ap
        (λ b. ok (record {
          header = set h (codes "Content-Type") ct;
          body = Option.map (λ x. transcoded (new_response_reader x resp.trailer)) b;
        }))
        has_body
    ∙ ap
        (λ t. ok (record {
          header = set h (codes "Content-Type") ct;
          body = some (transcoded (new_response_reader r t));
        }))
        no_trailer

module _ (write_error : List Call → Bytes → Option Error) where
  -- A response below 400 has the header that the server's writer sends for a gRPC content type, and a
  -- body that gives the server's bytes, in any chunks: data frames and announced trailers. The trailers
  -- are a map of canonical tokens with values of header bytes, in at most 2^32 - 1 bytes, and the
  -- connection does not fail. Then `modifyResponse` returns no error and gives the response the server's
  -- content type and a body whose reading to the end, with any buffer that is not empty, gives the data
  -- frames and then io.EOF, and the trailers: under every key the values of the server's, each without
  -- the blanks at its ends.
  pub modify_response-response :
      (h : Header) (status : ℕ) (bufs : List Bytes) (hdr : Header) {announced : List Bytes}
      (ms : List (ℕ × Bytes)) (calls size : ℕ) (resp : Response) {r : Reader}
      → resp.status_code < 400
      → resp.header ≡ prepared h
      → IsGrpc (get h (codes "Content-Type"))
      → resp.body ≡ some r
      → resp.trailer ≡ []
      → values h (codes "Trailer") ≡ some announced
      → ((cs : List Call) (bs : Bytes) → write_error cs bs ≡ none)
      → concat bufs ≡ stream ms
      → AreDataFrames ms
      → IsMap (split_trailers hdr announced).1
      → All IsField (split_trailers hdr announced).1
      → IsU32 (length (write_header_bytes (split_trailers hdr announced).1))
      → All IsByte (body (response write_error h status bufs hdr).0.calls)
      → Delivers r (body (response write_error h status bufs hdr).0.calls) eof
      → 0 < size
      → weight r < calls
      → (m : Modified) × (rr : ResponseReader) × (got : Header) × (modify_response resp ≡ ok m)
        × (get m.header (codes "Content-Type") ≡ get h (codes "Content-Type"))
        × (m.body ≡ some (transcoded rr))
        × (read_to_end none calls size rr ≡ some (stream ms, got))
        × ((k : Bytes)
            → or_empty (values got k)
              ≡ map sent (or_empty (values (split_trailers hdr announced).1 k)))
  unfolding values
  modify_response-response h status bufs hdr {announced} ms calls size resp {r} below sent_h grpc
        has_body no_trailer a never e frames u fields small bytes d pos enough =
      let ct = get h (codes "Content-Type") in
      let (got, ended, same) =
        response-read_to_end write_error none h status bufs hdr ms calls size a never e frames u
          fields small bytes d pos enough in
      (
        record {
          header = set (mark resp.content_length resp.header) (codes "Content-Type") ct;
          body = some (transcoded (new_response_reader r []));
        },
        new_response_reader r [],
        got,
        modified_to resp below grpc (ap (λ t. get t (codes "Content-Type")) sent_h ∙ get-prepared h)
            has_body no_trailer,
        get-set (mark resp.content_length resp.header) ct,
        refl,
        ended,
        same,
      )
