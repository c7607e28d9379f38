-- ===== src/Httputils.antt =====
-- internal/httputils/error_message.go: an error from an HTTP response that is one, with the text of its
-- body.
--
-- The regular expression `;\s*` splits a field at the first semicolon; only the part in front of it is
-- used. A text is decoded into runes on fuel, its length: each rune takes a byte at least.
pub mod Bounds
use go_grpc_http.Common.{
  ℕ, zero, suc, ◌+◌, ◌/◌, ◌%◌, Bool, true, false, not, ◌&&◌, Option, none, some, List, [], ◌∷◌,
  ◌++◌, ltb, ◌==◌, if◌then◌else◌, equal, length, take, drop, Bytes, codes,
}
use go_grpc_http.Errors.{Error, message, message_of}
use go_grpc_http.Io.{Reader, Transfer, read_all_limited}
use go_grpc_http.Utf8.{decode_rune, rune_error}
use go_grpc_http.Strings.{is_space}
use go_grpc_http.Http.{get}
use go_grpc_http.Http.Wire.{is_empty}
use go_grpc_http.Http.Response.{Response}

abbrev pub max_body_bytes : ℕ
max_body_bytes = 1024

-- The first part of a field.
unfoldable pub first_part : Bytes → Bytes
first_part [] = []
first_part (c ∷ cs) = let rest = c ∷ first_part cs in if c == b';' then [] else rest

-- The runes of a text, each with its bytes.
unfoldable pub runes : ℕ → Bytes → List (ℕ × Bytes)
unfolding decode_rune
runes zero text = []
runes (suc fuel) [] = []
runes (suc fuel) (b ∷ bs) =
    let (r, size) = decode_rune (b ∷ bs) in
    (r, take size (b ∷ bs)) ∷ runes fuel (drop size (b ∷ bs))

-- `utf8.Valid`: no byte stands for itself.
abbrev is_bad : ℕ × Bytes → Bool
is_bad (r, bs) = r == rune_error && length bs == 1

none_bad : List (ℕ × Bytes) → Bool
none_bad [] = true
none_bad (r ∷ rs) = not (is_bad r) && none_bad rs

unfoldable pub valid : Bytes → Bool
unfolding none_bad runes
valid text = none_bad (runes (length text) text)

-- `strings.TrimSpace`, on the runes of a valid text.
trim_front : List (ℕ × Bytes) → List (ℕ × Bytes)
unfolding is_space
trim_front [] = []
trim_front (r ∷ rs) = let rest = trim_front rs in if is_space r.0 then rest else r ∷ rs

abbrev cons_unless_space : ℕ × Bytes → List (ℕ × Bytes) → List (ℕ × Bytes)
cons_unless_space r [] = if is_space r.0 then [] else r ∷ []
cons_unless_space r (s ∷ rs) = r ∷ s ∷ rs

trim_back : List (ℕ × Bytes) → List (ℕ × Bytes)
unfolding is_space
trim_back [] = []
trim_back (r ∷ rs) = cons_unless_space r (trim_back rs)

abbrev join_runes : List (ℕ × Bytes) → Bytes
join_runes [] = []
join_runes ((r, bs) ∷ rs) = bs ++ join_runes rs

unfoldable pub trim_space : Bytes → Bytes
unfolding trim_front trim_back runes
trim_space text = join_runes (trim_back (trim_front (runes (length text) text)))

-- `%d`.
abbrev digit : ℕ → ℕ
digit d = b'0' + d

decimal_loop : ℕ → ℕ → Bytes
decimal_loop zero n = digit (n % 10) ∷ []
decimal_loop (suc fuel) n =
    let more = decimal_loop fuel (n / 10) ++ digit (n % 10) ∷ [] in
    if ltb n 10 then digit n ∷ [] else more

unfoldable pub decimal : ℕ → Bytes
unfolding decimal_loop
decimal n = decimal_loop n n

-- `contentsStr`.
unfoldable pub contents_text : Bytes → Bytes
unfolding trim_space valid
contents_text contents =
    if valid contents then trim_space contents else codes "invalid UTF-8 characters in response"

-- The error for the text `contentsStr` of `n` bytes, which ended with an error or not.
unfoldable pub text_error : Bytes → ℕ → Bytes → Option Error → Error
unfolding decimal
text_error status n [] (some e) = message_of (status ++ codes ", error reading response body: ") e
text_error status n (c ∷ cs) (some e) =
    message_of
      (status
        ++ (codes ": "
            ++ (c ∷ cs
                ++ (codes ", error reading response body after "
                    ++ (decimal n ++ codes " bytes: ")))))
      e
text_error status n [] none = message status
text_error status n (c ∷ cs) none = message (status ++ (codes ": " ++ c ∷ cs))

-- `ExtractResponseError` behind the read of the body.
unfoldable pub body_error : Bytes → Transfer → Error
unfolding contents_text text_error
body_error status t = text_error status (length t.bytes) (contents_text t.bytes) t.error

-- The body of a response whose code is an error is there; it is read where its type is plain text.
abbrev body_of : Option Reader → Reader
body_of none = []
body_of (some r) = r

-- The error, and the response with what is left of its body.
unfoldable pub extract_response_error : Response → Option Error × Response
unfolding first_part body_error get equal read_all_limited
extract_response_error resp =
    let content_type = first_part (get resp.header (codes "Content-Type")) in
    let t = read_all_limited max_body_bytes (body_of resp.body) in
    if ltb resp.status_code 400
    then (none, resp)
    else if not (equal content_type (codes "text/plain"))
    then (some (message (resp.status ++ (codes ", content-type " ++ content_type))), resp)
    else (some (body_error resp.status t), record resp { body = some t.rest })
