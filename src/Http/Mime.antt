-- ===== src/Http/Mime.antt =====
-- `(*textproto.Reader).ReadMIMEHeader` of Go 1.20, which reads the trailers and the header of a message.
--
-- Its input is a text, and the error that comes behind it, again and again: io.EOF, or what broke the
-- stream. The text is split into its lines first; the last one may have no end.
pub mod Lines
pub mod Text
pub mod Sent
pub mod Sorting
pub mod RoundTrip
use go_grpc_http.Common.{
  ℕ, Bool, true, false, not, ◌&&◌, ◌||◌, Option, none, some, List, [], ◌∷◌, ◌++◌, leb, ◌==◌,
  if◌then◌else◌, Bytes,
}
use go_grpc_http.Errors.{Error, malformed_mime}
use go_grpc_http.Http.{Header, values, store, or_empty, is_token, canonical_from}
use go_grpc_http.Http.Wire.{is_empty}

abbrev pub starts_with : ℕ → Bytes → Bool
starts_with c [] = false
starts_with c (b ∷ bs) = b == c

-- A byte in front of the first line.
abbrev pub cons_line : ℕ → List Bytes → List Bytes
cons_line b [] = (b ∷ []) ∷ []
cons_line b (l ∷ ls) = (b ∷ l) ∷ ls

-- The lines as `ReadLine` returns them, without `\\n` or `\\r\\n`.
unfoldable pub lines : Bytes → List Bytes
lines [] = []
lines (b ∷ bs) =
    let later = lines bs in
    if b == b'\n'
    then [] ∷ later
    else if b == b'\r' && starts_with b'\n' bs
    then later
    else cons_line b later

abbrev pub is_blank : ℕ → Bool
is_blank c = c == b' ' || c == b'\t'

abbrev pub starts_blank : Bytes → Bool
starts_blank [] = false
starts_blank (b ∷ bs) = is_blank b

-- `trim`, from both ends.
unfoldable pub trim_left : Bytes → Bytes
trim_left [] = []
trim_left (c ∷ cs) = let rest = trim_left cs in if is_blank c then rest else c ∷ cs

abbrev pub cons_unless_blank : ℕ → Bytes → Bytes
cons_unless_blank c [] = if is_blank c then [] else c ∷ []
cons_unless_blank c (d ∷ ds) = c ∷ d ∷ ds

unfoldable pub trim_right : Bytes → Bytes
trim_right [] = []
trim_right (c ∷ cs) = cons_unless_blank c (trim_right cs)

unfoldable pub trim : Bytes → Bytes
unfolding trim_left trim_right
trim s = trim_right (trim_left s)

-- `bytes.Cut` at the first colon.
abbrev pub before : ℕ → Option (Bytes × Bytes) → Option (Bytes × Bytes)
before c none = none
before c (some (k, v)) = some (c ∷ k, v)

unfoldable pub cut_colon : Bytes → Option (Bytes × Bytes)
cut_colon [] = none
cut_colon (c ∷ cs) =
    let later = before c (cut_colon cs) in if c == b':' then some ([], cs) else later

-- `canonicalMIMEHeaderKey`: a space is let through, but then the key is left as it is; `none` is a key
-- with another byte.
unfoldable pub has_bad_byte : Bytes → Bool
has_bad_byte [] = false
has_bad_byte (c ∷ cs) = not (is_token c || c == b' ') || has_bad_byte cs

unfoldable pub has_space : Bytes → Bool
has_space [] = false
has_space (c ∷ cs) = c == b' ' || has_space cs

unfoldable pub mime_key : Bytes → Option Bytes
mime_key k =
    if has_bad_byte k then none else if has_space k then some k else some (canonical_from true k)

-- `validHeaderValueByte`.
abbrev pub is_value_byte : ℕ → Bool
is_value_byte c = c == b'\t' || (leb b' ' c && not (c == 127))

unfoldable pub are_value_bytes : Bytes → Bool
are_value_bytes [] = true
are_value_bytes (c ∷ cs) = is_value_byte c && are_value_bytes cs

-- `m[key] = append(m[key], value)`.
unfoldable pub append_value : Header → Bytes → Bytes → Header
append_value m key value = store m key (or_empty (values m key) ++ value ∷ [])

-- What one logical line adds to the header; a line with an empty key adds nothing.
abbrev pub add_keyed : Header → Bytes → Bytes → Option Header
add_keyed m [] v = some m
add_keyed m (c ∷ k) v = some (append_value m (c ∷ k) (trim_left v))

abbrev pub add_checked : Header → Bool → Option Bytes → Bytes → Option Header
add_checked m false key v = none
add_checked m true none v = none
add_checked m true (some key) v = add_keyed m key v

abbrev pub add_cut : Header → Option (Bytes × Bytes) → Option Header
add_cut m none = none
add_cut m (some (k, v)) = add_checked m (are_value_bytes v) (mime_key k) v

unfoldable pub add_line : Header → Bytes → Option Header
add_line m kv = add_cut m (cut_colon kv)

-- The header and the lines behind its end, or an error.
pub data Mime : Type 0 where
  parsed : Header → List Bytes → Mime
  refused : Error → Mime

-- A line behind a logical one: it continues that one, or ends it, and then the header or the next field.
abbrev pub ended : Bool → Option (Bytes × Bytes) → List Bytes → Header → (Header → Mime) → Mime
ended true cut ls m next = parsed m ls
ended false none ls m next = refused malformed_mime
ended false (some _) ls m next = next m

abbrev pub next_line :
    Bool
    → Option Header
    → Bool
    → Option (Bytes × Bytes)
    → List Bytes
    → Mime
    → (Header → Mime)
    → Mime
next_line true added empty cut ls longer next = longer
next_line false none empty cut ls longer next = refused malformed_mime
next_line false (some m) empty cut ls longer next = ended empty cut ls m next

-- The input ends inside a logical line.
abbrev pub cut_off : Error → Option Header → Mime
cut_off e none = refused malformed_mime
cut_off e (some m) = refused e

-- A logical line `kv` has begun; `ls` are the lines behind it.
unfoldable pub read_fields : Error → Bytes → List Bytes → Header → Mime
read_fields e kv [] m = cut_off e (add_line m kv)
read_fields e kv (l ∷ ls) m =
    next_line (starts_blank l) (add_line m kv) (is_empty l) (cut_colon l) ls
      (read_fields e (kv ++ b' ' ∷ trim l) ls m) (λ m'. read_fields e (trim l) ls m')

unfoldable pub read_lines : Error → List Bytes → Mime
unfolding read_fields
read_lines e [] = refused e
read_lines e (l ∷ ls) =
    if starts_blank l
    then refused malformed_mime
    else if is_empty l
    then parsed [] ls
    else elim (cut_colon l) [
      | none ↦ refused malformed_mime
      | some _ ↦ read_fields e (trim l) ls []
    ]

unfoldable pub read_mime_header : Error → Bytes → Mime
unfolding read_lines lines
read_mime_header e text = read_lines e (lines text)
