-- ===== src/Http.antt =====
-- `net/http` and `net/textproto` as the repository uses them: headers, canonical keys, requests.
--
-- A header is an association list with at most one entry for a key; Go goes through it in any order.
-- Where the source indexes a header, a missing key is a nil slice, `none`.
pub mod Laws
pub mod Wire
pub mod Mime
pub mod Response
use go_grpc_http.Common.{
  ℕ, zero, suc, ◌+◌, ◌-◌, Bool, true, false, not, ◌&&◌, ◌||◌, Option, none, some, List, [], ◌∷◌,
  ◌++◌, leb, ◌==◌, if◌then◌else◌, equal, Bytes, codes,
}
use go_grpc_http.Utf8.{within}

abbrev pub Header : Type 0
Header = List (Bytes × List Bytes)

-- `h[k]`.
unfoldable pub values : Header → Bytes → Option (List Bytes)
unfolding equal
values [] k = none
values ((j, vs) ∷ h) k = let later = values h k in if equal j k then some vs else later

-- `h[k] = vs`.
unfoldable pub store : Header → Bytes → List Bytes → Header
unfolding equal
store [] k vs = (k, vs) ∷ []
store ((j, ws) ∷ h) k vs =
    let later = (j, ws) ∷ store h k vs in if equal j k then (k, vs) ∷ h else later

-- `delete(h, k)`.
unfoldable pub delete : Header → Bytes → Header
unfolding equal
delete [] k = []
delete ((j, ws) ∷ h) k = let later = delete h k in if equal j k then later else (j, ws) ∷ later

-- The bytes of a token: `validHeaderFieldByte`.
unfoldable pub is_token : ℕ → Bool
is_token c =
    within b'0' b'9' c
    || within b'a' b'z' c
    || within b'A' b'Z' c
    || c == b'!'
    || within b'#' b'\'' c
    || c == b'*'
    || c == b'+'
    || c == b'-'
    || c == b'.'
    || c == b'^'
    || c == b'_'
    || c == b'`'
    || c == b'|'
    || c == b'~'

unfoldable pub all_token : Bytes → Bool
all_token [] = true
all_token (c ∷ cs) = is_token c && all_token cs

-- One byte of a canonical key: upper case at the front and behind a dash, lower case elsewhere.
abbrev pub canonical_byte : Bool → ℕ → ℕ
canonical_byte true c = if within b'a' b'z' c then c - 32 else c
canonical_byte false c = if within b'A' b'Z' c then c + 32 else c

unfoldable pub canonical_from : Bool → Bytes → Bytes
canonical_from upper [] = []
canonical_from upper (c ∷ cs) = canonical_byte upper c ∷ canonical_from (c == b'-') cs

-- `http.CanonicalHeaderKey`: a key with another byte than those of a token is left as it is.
unfoldable pub canonical_header_key : Bytes → Bytes
unfolding is_token all_token canonical_from
canonical_header_key k = if all_token k then canonical_from true k else k

-- The first value of a header field, or the empty text.
abbrev pub first_value : Option (List Bytes) → Bytes
first_value none = []
first_value (some []) = []
first_value (some (v ∷ _)) = v

-- The methods `Get`, `Set`, `Add` and `Del`.
unfoldable pub get : Header → Bytes → Bytes
unfolding values canonical_header_key
get h k = first_value (values h (canonical_header_key k))

unfoldable pub set : Header → Bytes → Bytes → Header
unfolding store canonical_header_key
set h k v = store h (canonical_header_key k) (v ∷ [])

abbrev pub or_empty : Option (List Bytes) → List Bytes
or_empty none = []
or_empty (some vs) = vs

unfoldable pub add : Header → Bytes → Bytes → Header
unfolding values store canonical_header_key
add h k v = let key = canonical_header_key k in store h key (or_empty (values h key) ++ v ∷ [])

unfoldable pub del : Header → Bytes → Header
unfolding delete canonical_header_key
del h k = delete h (canonical_header_key k)

-- The parts of an `http.Request` that the repository reads or writes. `host` and `scheme` are those of
-- the URL; a content length of -1 is `none`.
pub record Request : Type 0 where
  pub method : Bytes
  pub proto_major : ℕ
  pub proto_minor : ℕ
  pub proto : Bytes
  pub path : Bytes
  pub scheme : Bytes
  pub host : Bytes
  pub header : Header
  pub content_length : Option ℕ
