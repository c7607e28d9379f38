-- ===== src/Client/Proxy/Failure.antt =====
-- client/proxy.go: `writeError`, a gRPC status for an error of the transport.
--
-- `error_text` is the text of an error value; `errors.Wrap` puts its message and a colon in front of it.
-- `none` is no Go value: the fuel of `EncodeGrpcMessage` ran out.
use go_grpc_http.Common.{
  Option, some, List, [], ◌∷◌, ◌++◌, Bytes, codes, equal, ◌≡◌, ap, ◌∙◌, arith, All, append_assoc,
}
use mathlib.Core.Option
use go_grpc_http.Errors.{Error}
use go_grpc_http.Http.{Header, values, set, add, or_empty, canonical_header_key}
use go_grpc_http.Http.Laws.{values-set, values-add}
use go_grpc_http.Proto.{IsByte}
use go_grpc_http.Proto.Percent.{encode_grpc_message}
use go_grpc_http.Proto.Percent.Decoding.{
  IsPrintable, Repairs, percent_decode, encode_grpc_message-Encodes,
}
use go_grpc_http.Grpcweb.ResponseWriter.{Call, wrote_header}

-- A writer's header, and the calls on it.
abbrev pub Answer : Type 0
Answer = Header × List Call

-- `codes.Unavailable` in decimal.
abbrev pub unavailable : Bytes
unavailable = codes "14"

-- The header at `WriteHeader`.
unfoldable pub error_header : Header → Header
unfolding set add
error_header h =
    add
      (add (set h (codes "Content-Type") (codes "application/grpc")) (codes "Trailer")
        (codes "Grpc-Status"))
      (codes "Trailer") (codes "Grpc-Message")

-- The status and the message in the header.
unfoldable pub error_trailers : Header → Bytes → Header
unfolding set
error_trailers h msg = set (set h (codes "Grpc-Status") unavailable) (codes "Grpc-Message") msg

module _ (error_text : Error → Bytes) where
  -- `grpcproto.EncodeGrpcMessage(errors.Wrap(err, "transport").Error())`.
  unfoldable pub error_message : Error → Option Bytes
  unfolding encode_grpc_message
  error_message e = encode_grpc_message (codes "transport: " ++ error_text e)

  -- `writeError` on a writer with this header.
  unfoldable pub write_error : Header → Error → Option Answer
  unfolding error_message error_header error_trailers
  write_error h e =
      Option.map
        (λ msg. (error_trailers (error_header h) msg, wrote_header 200 (error_header h) ∷ []))
        (error_message e)

values-error_header :
    (h : Header)
    → (values (error_header h) (codes "Content-Type") ≡ some (codes "application/grpc" ∷ []))
      × (values (error_header h) (codes "Trailer")
          ≡ some (
              or_empty (values h (codes "Trailer"))
              ++ codes "Grpc-Status" ∷ codes "Grpc-Message" ∷ []))
unfolding error_header canonical_header_key equal
values-error_header h =
    let typed = set h (codes "Content-Type") (codes "application/grpc") in
    let one = add typed (codes "Trailer") (codes "Grpc-Status") in
    (
      values-add one (codes "Trailer") (codes "Grpc-Message") (codes "Content-Type")
          ∙ values-add typed (codes "Trailer") (codes "Grpc-Status") (codes "Content-Type")
          ∙ values-set h (codes "Content-Type") (codes "application/grpc") (codes "Content-Type"),
      values-add one (codes "Trailer") (codes "Grpc-Message") (codes "Trailer")
          ∙ ap (λ t. some (or_empty t ++ codes "Grpc-Message" ∷ []))
              (values-add typed (codes "Trailer") (codes "Grpc-Status") (codes "Trailer"))
          ∙ ap (λ t. some ((or_empty t ++ codes "Grpc-Status" ∷ []) ++ codes "Grpc-Message" ∷ []))
              (values-set h (codes "Content-Type") (codes "application/grpc") (codes "Trailer"))
          ∙ ap some (
              append_assoc (or_empty (values h (codes "Trailer"))) (codes "Grpc-Status" ∷ [])
                (codes "Grpc-Message" ∷ [])),
    )

values-error_trailers :
    (h : Header) (msg : Bytes)
    → (values (error_trailers h msg) (codes "Grpc-Status") ≡ some (unavailable ∷ []))
      × (values (error_trailers h msg) (codes "Grpc-Message") ≡ some (msg ∷ []))
unfolding error_trailers canonical_header_key equal
values-error_trailers h msg =
    let h1 = set h (codes "Grpc-Status") unavailable in
    (
      values-set h1 (codes "Grpc-Message") msg (codes "Grpc-Status")
          ∙ values-set h (codes "Grpc-Status") unavailable (codes "Grpc-Status"),
      values-set h1 (codes "Grpc-Message") msg (codes "Grpc-Message"),
    )

-- The text of the error is made of bytes. Then `writeError` returns; the header that it sends has the
-- content type of gRPC and announces the two trailers behind those announced before, and the header in
-- the end has the status 14, and a message in printable ASCII, whose percent decoding is the error's
-- text behind `transport: `, with U+FFFD for each byte that is not UTF-8.
pub write_error_lem :
    (error_text : Error → Bytes) (h : Header) (e : Error)
    → All IsByte (error_text e)
    → (final first : Header) × (msg : Bytes) × (write_error error_text h e
        ≡ some (final, wrote_header 200 first ∷ []))
      × (values first (codes "Content-Type") ≡ some (codes "application/grpc" ∷ []))
      × (values first (codes "Trailer")
          ≡ some (
              or_empty (values h (codes "Trailer"))
              ++ codes "Grpc-Status" ∷ codes "Grpc-Message" ∷ []))
      × (values final (codes "Grpc-Status") ≡ some (unavailable ∷ []))
      × (values final (codes "Grpc-Message") ≡ some (msg ∷ []))
      × All IsPrintable msg
      × Repairs (codes "transport: " ++ error_text e) (percent_decode msg)
unfolding write_error error_message
write_error_lem error_text h e bytes =
    let (msg, returned, printable, repaired) =
      encode_grpc_message-Encodes (codes "transport: " ++ error_text e) (ground (arith, bytes)) in
    let first = error_header h in
    let (content_type, trailer) = values-error_header h in
    let (status, message) = values-error_trailers first msg in
    (
      error_trailers first msg,
      first,
      msg,
      ap (Option.map (λ m. (error_trailers first m, wrote_header 200 first ∷ []))) returned,
      content_type,
      trailer,
      status,
      message,
      printable,
      repaired,
    )
