-- ===== src/Client/WebsocketProxy/Serving/Errors.antt =====
-- Which error of a connection the gRPC client sees, and how.
use go_grpc_http.Common.{
  Bool, true, false, Option, none, some, [], ◌∷◌, ◌++◌, if◌then◌else◌, equal, Bytes, codes, ◌≡◌,
  refl, sym, ap, ◌∙◌, arith, subst, Option-cases, All, Bool-cases, inl, inr,
}
use mathlib.Core.Option
use go_grpc_http.Errors.{Error, Result, error_of}
use go_grpc_http.Http.{Header, values, set, canonical_header_key, all_token, is_token}
use go_grpc_http.Http.Laws.{values-set}
use go_grpc_http.Proto.{IsByte}
use go_grpc_http.Proto.Percent.Decoding.{
  IsPrintable, Repairs, percent_decode, encode_grpc_message-Encodes,
}
use go_grpc_http.Client.Proxy.Failure.{unavailable, error_message}
use go_grpc_http.Client.WebsocketProxy.Response.{WebsocketConn, has_status, write_status}
use go_grpc_http.Client.WebsocketProxy.Serving.{
  set_error, set_result, transport_trailers, error_written, write_error_if_necessary, settle,
}

values-transport_trailers :
    (h : Header) (msg k : Bytes)
    → values (transport_trailers h msg) k ≡ (
        if equal (codes "Trailer:Grpc-Message") k
        then some (msg ∷ [])
        else if equal (codes "Trailer:Grpc-Status") k
        then some (unavailable ∷ [])
        else values h k)
unfolding transport_trailers canonical_header_key all_token is_token
values-transport_trailers h msg k =
    let h1 = set h (codes "Trailer:Grpc-Status") unavailable in
    values-set h1 (codes "Trailer:Grpc-Message") msg k
    ∙ ap (λ t. if equal (codes "Trailer:Grpc-Message") k then some (msg ∷ []) else t)
        (values-set h (codes "Trailer:Grpc-Status") unavailable k)

-- What `writeErrorIfNecessary` makes of a connection.
pub data Written (error_text : Error → Bytes) (c : WebsocketConn)
    : Option WebsocketConn → Type 0 where
  no_error : c.err ≡ none → Written error_text c (some c)
  has_one : has_status c ≡ true → Written error_text c (some c)
  replaced :
      {e : Error} {msg : Bytes} {after : Header}
      → c.err ≡ some e
      → has_status c ≡ false
      → values after (codes "Trailer:Grpc-Status") ≡ some (unavailable ∷ [])
      → values after (codes "Trailer:Grpc-Message") ≡ some (msg ∷ [])
      → ((k : Bytes)
          → equal (codes "Trailer:Grpc-Message") k ≡ false
          → equal (codes "Trailer:Grpc-Status") k ≡ false
          → values after k ≡ values c.header k)
      → All IsPrintable msg
      → Repairs (codes "transport: " ++ error_text e) (percent_decode msg)
      → Written error_text c (some (record (write_status c) { header = after }))

replaced_with :
    (error_text : Error → Bytes) (c : WebsocketConn) (e : Error)
    → c.err ≡ some e
    → has_status c ≡ false
    → All IsByte (error_text e)
    → Written error_text c (error_written error_text c (some e))
unfolding equal error_message
replaced_with error_text c e set clear bytes =
    let (msg, returned, printable, repaired) =
      encode_grpc_message-Encodes (codes "transport: " ++ error_text e) (ground (arith, bytes)) in
    let after = transport_trailers c.header msg in
    let same : (k : Bytes)
        → equal (codes "Trailer:Grpc-Message") k ≡ false
        → equal (codes "Trailer:Grpc-Status") k ≡ false
        → values after k ≡ values c.header k =
      λ k m t. values-transport_trailers c.header msg k ∙ rw (m, t) refl in
    subst (Written error_text c)
      (sym (
        ap
          (λ b.
            if b
            then some c
            else Option.map
                (λ m. record (write_status c) { header = transport_trailers c.header m })
                (error_message error_text e))
          clear
        ∙ ap (Option.map (λ m. record (write_status c) { header = transport_trailers c.header m }))
            returned))
      (replaced set clear (values-transport_trailers c.header msg (codes "Trailer:Grpc-Status"))
        (values-transport_trailers c.header msg (codes "Trailer:Grpc-Message")) same printable
        repaired)

write_error_if_necessary_lem :
    (error_text : Error → Bytes) (c : WebsocketConn)
    → ((e : Error) → All IsByte (error_text e))
    → Written error_text c (write_error_if_necessary error_text c)
unfolding write_error_if_necessary
write_error_if_necessary_lem error_text c bytes = elim (Option-cases c.err) [
  | inl e ↦ subst (λ o. Written error_text c (error_written error_text c o)) (sym e) (no_error e)
  | inr (x, e) ↦ elim (Bool-cases (has_status c)) [
    | inl s ↦
        subst (Written error_text c) (sym (ap (error_written error_text c) e ∙ rw s refl))
          (has_one s)
    | inr s ↦
        subst (λ o. Written error_text c (error_written error_text c o)) (sym e)
          (replaced_with error_text c x e s (bytes x))
  ]
]

-- A connection on which no error is set, and the one with the error that was set first.
abbrev pub fine : WebsocketConn → WebsocketConn
fine c = record c { err_flag = false; err = none }

abbrev pub with_error : WebsocketConn → Option Error → WebsocketConn
with_error c none = fine c
with_error c (some e) = record c { err_flag = true; err = some e }

abbrev pub first_error : Bool → Option Error → Option Error → Option Error
first_error true (some d) e = some d
first_error true none e = e
first_error false d (some e) = some e
first_error false d none = d

set_first :
    (c : WebsocketConn) (write_first : Bool) (d e : Option Error)
    → (if write_first
        then set_result (set_result (fine c) d) e
        else set_result (set_result (fine c) e) d)
      ≡ with_error c (first_error write_first d e)
unfolding set_error
set_first c true none none = refl
set_first c true none (some e) = refl
set_first c true (some d) none = refl
set_first c true (some d) (some e) = refl
set_first c false none none = refl
set_first c false none (some e) = refl
set_first c false (some d) none = refl
set_first c false (some d) (some e) = refl

-- No error is set when the two directions of the connection end, in any order, and the text of errors is
-- made of bytes. Where both end without an error, or the header has a status, the writer is left as
-- `readFromServer` left it. Else the error that was set first counts: the status 200 is written with the
-- header as it is, and then the header gets two trailers, the status 14 and a message in printable ASCII,
-- whose percent decoding is that error's text behind `transport: `, with U+FFFD for each byte that is not
-- UTF-8. They replace what the two keys had, and all other keys stay.
pub settle-Written :
    (error_text : Error → Bytes) (c : WebsocketConn) (write_first : Bool)
    (write_result : Option Error) (read_result : Result (Unit {0}))
    → ((e : Error) → All IsByte (error_text e))
    → Written error_text
        (with_error c (first_error write_first write_result (error_of read_result)))
        (settle error_text write_first write_result (fine c, read_result))
unfolding settle
settle-Written error_text c write_first write_result read_result bytes =
    let ended = with_error c (first_error write_first write_result (error_of read_result)) in
    subst (Written error_text ended)
      (ap (write_error_if_necessary error_text)
        (sym (set_first c write_first write_result (error_of read_result))))
      (write_error_if_necessary_lem error_text ended bytes)
