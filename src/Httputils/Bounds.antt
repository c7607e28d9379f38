-- ===== src/Httputils/Bounds.antt =====
-- How much of a response an error quotes.
use go_grpc_http.Common.{
  ℕ, zero, suc, ◌+◌, ◌*◌, ◌/◌, ◌%◌, ◌≤◌, ◌<◌, Option, none, some, List, [], ◌∷◌, ◌++◌, ltb, equal,
  equal_iff, length, take, drop, Bytes, codes, ◌≡◌, ◌≢◌, refl, sym, ap, arith, Bool-cases, inl, inr,
  append-nil, length-append, take-append-drop,
}
use go_grpc_http.Errors.{Error, message, message_of}
use go_grpc_http.Io.{Reader, read_all_limited}
use go_grpc_http.Io.Limited.{content, read_all_limited_lem, read_all_limited-content}
use go_grpc_http.Utf8.{decode_rune}
use go_grpc_http.Strings.{is_space}
use go_grpc_http.Http.{get}
use go_grpc_http.Http.Response.{Response}
use go_grpc_http.Httputils.{
  max_body_bytes, first_part, runes, valid, trim_front, cons_unless_space, trim_back, join_runes,
  trim_space, digit, decimal_loop, decimal, contents_text, text_error, body_of,
  extract_response_error,
}

-- Trimming leaves no more than there was.
length-runes : (fuel : ℕ) (text : Bytes) → length (join_runes (runes fuel text)) ≤ length text
unfolding runes
length-runes zero text = omega arith
length-runes (suc fuel) [] = omega arith
length-runes (suc fuel) (b ∷ bs) =
    let size = (decode_rune (b ∷ bs)).1 in
    omega (
      arith,
      length-runes fuel (drop size (b ∷ bs)),
      ap length (take-append-drop size (b ∷ bs)),
      length-append (take size (b ∷ bs)) (drop size (b ∷ bs)),
      length-append (take size (b ∷ bs)) (join_runes (runes fuel (drop size (b ∷ bs)))),
    )

length-trim_front :
    (rs : List (ℕ × Bytes)) → length (join_runes (trim_front rs)) ≤ length (join_runes rs)
unfolding trim_front
length-trim_front [] = omega arith
length-trim_front ((r, bs) ∷ rs) = elim (Bool-cases (is_space r)) [
  | inl e ↦ rw e (omega (arith, length-trim_front rs, length-append bs (join_runes rs)))
  | inr e ↦ rw e (omega arith)
]

length-cons_unless_space :
    (r : ℕ) (bs : Bytes) (rs : List (ℕ × Bytes))
    → length (join_runes (cons_unless_space (r, bs) rs)) ≤ length bs + length (join_runes rs)
length-cons_unless_space r bs [] = elim (Bool-cases (is_space r)) [
  | inl e ↦ rw e (omega arith)
  | inr e ↦ rw e (omega (arith, length-append bs []))
]
length-cons_unless_space r bs (s ∷ rs) = omega (arith, length-append bs (join_runes (s ∷ rs)))

length-trim_back :
    (rs : List (ℕ × Bytes)) → length (join_runes (trim_back rs)) ≤ length (join_runes rs)
unfolding trim_back
length-trim_back [] = omega arith
length-trim_back ((r, bs) ∷ rs) = omega (
  arith,
  length-cons_unless_space r bs (trim_back rs),
  length-trim_back rs,
  length-append bs (join_runes rs),
)

length-contents_text :
    (text : Bytes) → length text ≤ max_body_bytes → length (contents_text text) ≤ max_body_bytes
unfolding contents_text trim_space
length-contents_text text h = elim (Bool-cases (valid text)) [
  | inl e ↦
      let rs = runes (length text) text in
      rw e (
        omega (
          arith,
          length-runes (length text) text,
          length-trim_front rs,
          length-trim_back (trim_front rs),
        ))
  | inr e ↦ rw e (omega arith)
]

abbrev limit : ℕ → ℕ
limit zero = 10
limit (suc k) = 10 * limit k

length-decimal_loop : (k fuel n : ℕ) → n < limit k → length (decimal_loop fuel n) ≤ suc k
unfolding decimal_loop
length-decimal_loop k zero n h = omega arith
length-decimal_loop zero (suc fuel) n h = ground arith
length-decimal_loop (suc k) (suc fuel) n h =
    let less = length-decimal_loop k fuel (n / 10) (omega arith) in
    ground (arith, less, length-append (decimal_loop fuel (n / 10)) (digit (n % 10) ∷ []))

length-decimal : (n : ℕ) → n ≤ max_body_bytes → length (decimal n) ≤ 4
unfolding decimal
length-decimal n h = length-decimal_loop 3 n n (omega arith)

-- An error's own text begins with the status, with at most so many bytes behind it.
pub data Quotes (status : Bytes) (bound : ℕ) : Error → Type 0 where
  quotes :
      {text : Bytes} (rest : Bytes)
      → text ≡ status ++ rest
      → length rest ≤ bound
      → Quotes status bound (message text)
  quotes_of :
      {text : Bytes} {e : Error} (rest : Bytes)
      → text ≡ status ++ rest
      → length rest ≤ bound
      → Quotes status bound (message_of text e)

text_error-Quotes :
    (status : Bytes) (n : ℕ) (text : Bytes) (e : Option Error)
    → n ≤ max_body_bytes
    → length text ≤ max_body_bytes
    → Quotes status 1076 (text_error status n text e)
unfolding text_error
text_error-Quotes status n [] (some e) h k =
    quotes_of (codes ", error reading response body: ") refl (omega arith)
text_error-Quotes status n (c ∷ cs) (some e) h k =
    let behind = codes ", error reading response body after " ++ (decimal n ++ codes " bytes: ") in
    quotes_of (codes ": " ++ (c ∷ cs ++ behind)) refl (
      omega (
        arith,
        length-decimal n h,
        length-append (c ∷ cs) behind,
        length-append (decimal n) (codes " bytes: "),
      ))
text_error-Quotes status n [] none h k = quotes [] (sym (append-nil status)) (omega arith)
text_error-Quotes status n (c ∷ cs) none h k = quotes (codes ": " ++ c ∷ cs) refl (omega arith)

-- What comes of a response: the error, and the response with what is left of its body.
pub data Extracted (resp : Response) : Option Error × Response → Type 0 where
  fine : resp.status_code < 400 → Extracted resp (none, resp)
  other_type :
      400 ≤ resp.status_code
      → first_part (get resp.header (codes "Content-Type")) ≢ codes "text/plain"
      → Extracted resp (
        some (
            message (
              resp.status
              ++ (codes ", content-type " ++ first_part (get resp.header (codes "Content-Type"))))),
        resp,
      )
  quoted :
      {e : Error} (taken : Bytes) (rest : Reader)
      → 400 ≤ resp.status_code
      → first_part (get resp.header (codes "Content-Type")) ≡ codes "text/plain"
      → length taken ≤ 1024
      → content (body_of resp.body) ≡ taken ++ content rest
      → Quotes resp.status 1076 e
      → Extracted resp (some e, record resp { body = some rest })

-- `ExtractResponseError` returns an error if and only if the code is 400 or more. Where it returns none,
-- or the body is no plain text, whose type the error names, nothing is read of the body. Of a plain text
-- at most 1024 bytes are taken from the body and the rest is left in it, and the error's own text is the
-- status with at most 1076 bytes behind it, however long the body is and whatever its bytes and its end
-- are.
pub extract_response_error-Extracted :
    (resp : Response) → Extracted resp (extract_response_error resp)
unfolding extract_response_error
extract_response_error-Extracted resp =
    let content_type = first_part (get resp.header (codes "Content-Type")) in
    let body = body_of resp.body in
    let t = read_all_limited max_body_bytes body in
    let few = read_all_limited_lem max_body_bytes body in
    elim (Bool-cases (ltb resp.status_code 400)) [
      | inl e ↦ rw e (fine (ground arith))
      | inr e ↦ elim (Bool-cases (equal content_type (codes "text/plain"))) [
        | inl f ↦
            rw (e, f)
              (quoted t.bytes t.rest (ground arith)
                ((equal_iff content_type (codes "text/plain")).0 f) few
                (read_all_limited-content max_body_bytes body)
                (text_error-Quotes resp.status (length t.bytes) (contents_text t.bytes) t.error few
                  (length-contents_text t.bytes few)))
        | inr f ↦
            rw (e, f)
              (other_type (ground arith)
                (λ g. cc ((equal_iff content_type (codes "text/plain")).1 g, f)))
      ]
    ]
