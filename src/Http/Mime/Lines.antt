-- ===== src/Http/Mime/Lines.antt =====
-- One line of a field: how it is split off, trimmed and read.
use go_grpc_http.Common.{
  ℕ, Bool, true, false, ◌&&◌, some, List, [], ◌∷◌, ◌++◌, ◌==◌, Bytes, codes, ◌≡◌, ◌≢◌, refl, ap,
  ◌∙◌, arith, All, Bool-cases, inl, inr, ==_iff,
}
use go_grpc_http.Http.{Header, is_token, all_token, canonical_from}
use go_grpc_http.Http.Wire.{is_empty}
use go_grpc_http.Http.Mime.{
  lines, starts_blank, trim_left, trim_right, cons_unless_blank, trim, cut_colon, mime_key,
  has_bad_byte, has_space, are_value_bytes, append_value, add_keyed, add_checked, add_cut, add_line,
}

-- A byte that ends no line.
abbrev pub IsInner : ℕ → Type 0
IsInner c = c ≢ b'\n'

-- A line comes out as it went in.
pub lines-line :
    (l more : Bytes) → All IsInner l → lines (l ++ (codes "\r\n" ++ more)) ≡ l ∷ lines more
unfolding lines
lines-line [] more h = refl
lines-line (b ∷ []) more h = ground (arith, lines-line [] more tt)
lines-line (b ∷ c ∷ l) more h = ground (arith, lines-line (c ∷ l) more h.1)

-- Fields as pairs of a key and a value, in the order of their lines.
abbrev pub text : List (Bytes × Bytes) → Bytes
text [] = []
text ((k, v) ∷ ps) = (k ++ (codes ": " ++ v)) ++ (codes "\r\n" ++ text ps)

-- A key that is a canonical token, and a value of the bytes that a value has, with no blank at its ends.
pub record IsLine (p : Bytes × Bytes) : Type 0 where
  pub some_key : is_empty p.0 ≡ false
  pub token : all_token p.0 ≡ true
  pub canonical : canonical_from true p.0 ≡ p.0
  pub value : are_value_bytes p.1 ≡ true
  pub front : starts_blank p.1 ≡ false
  pub back : trim_right p.1 ≡ p.1

pub and_parts : (a b : Bool) → (a && b) ≡ true → (a ≡ true) × (b ≡ true)
and_parts true b h = (refl, h)
and_parts false b h = cc

-- A token has no byte that is none of its own.
token_other : (b c : ℕ) → is_token b ≡ false → is_token c ≡ true → (c == b) ≡ false
token_other b c h k = elim (Bool-cases (c == b)) [
  | inl e ↦ cc (ap is_token ((==_iff c b).0 e))
  | inr e ↦ e
]

outside :
    (is_token b'\n' ≡ false)
    × (is_token b':' ≡ false)
    × (is_token b' ' ≡ false)
    × (is_token b'\t' ≡ false)
unfolding is_token
outside = (refl, refl, refl, refl)

pub token-IsInner : (k : Bytes) → all_token k ≡ true → All IsInner k
unfolding all_token
token-IsInner [] h = tt
token-IsInner (c ∷ k) h =
    let (t, ts) = and_parts (is_token c) (all_token k) h in
    (λ e. cc ((==_iff c b'\n').1 e, token_other b'\n' c outside.0 t), token-IsInner k ts)

pub value-IsInner : (v : Bytes) → are_value_bytes v ≡ true → All IsInner v
unfolding are_value_bytes
value-IsInner [] h = tt
value-IsInner (c ∷ v) h = (λ e. ground arith, value-IsInner v (ground arith))

pub cut_colon_lem : (k v : Bytes) → all_token k ≡ true → cut_colon (k ++ b':' ∷ v) ≡ some (k, v)
unfolding cut_colon all_token
cut_colon_lem [] v h = refl
cut_colon_lem (c ∷ k) v h =
    let (t, ts) = and_parts (is_token c) (all_token k) h in
    rw (token_other b':' c outside.1 t, cut_colon_lem k v ts) refl

token_bytes : (k : Bytes) → all_token k ≡ true → (has_bad_byte k ≡ false) × (has_space k ≡ false)
unfolding has_bad_byte has_space all_token
token_bytes [] h = (refl, refl)
token_bytes (c ∷ k) h =
    let (t, ts) = and_parts (is_token c) (all_token k) h in
    let (good, tight) = token_bytes k ts in
    (rw (t, good) refl, rw (token_other b' ' c outside.2 t, tight) refl)

cons_full : (x : ℕ) (ys : Bytes) → is_empty ys ≡ false → cons_unless_blank x ys ≡ x ∷ ys
cons_full x [] h = cc
cons_full x (y ∷ ys) h = refl

append_full : (xs ys : Bytes) → is_empty ys ≡ false → is_empty (xs ++ ys) ≡ false
append_full [] ys h = h
append_full (x ∷ xs) ys h = refl

trim_right-append :
    (xs ys zs : Bytes) → trim_right ys ≡ zs → is_empty zs ≡ false → trim_right (xs ++ ys) ≡ xs ++ zs
unfolding trim_right
trim_right-append [] ys zs h e = h
trim_right-append (x ∷ xs) ys zs h e =
    ap (cons_unless_blank x) (trim_right-append xs ys zs h e)
    ∙ cons_full x (xs ++ zs) (append_full xs zs e)

-- What is left of a value and the space in front of it, once the end of the line is trimmed.
abbrev clipped : Bytes → Bytes
clipped [] = []
clipped (c ∷ v) = b' ' ∷ c ∷ v

trim_right-clipped :
    (v : Bytes) → trim_right v ≡ v → trim_right (b':' ∷ b' ' ∷ v) ≡ b':' ∷ clipped v
unfolding trim_right
trim_right-clipped [] h = refl
trim_right-clipped (c ∷ v) h = ap (λ t. cons_unless_blank b':' (cons_unless_blank b' ' t)) h

-- The trimmed line of a field.
abbrev pub line_of : Bytes × Bytes → Bytes
line_of p = p.0 ++ b':' ∷ clipped p.1

pub front_unblank :
    (k more : Bytes) → is_empty k ≡ false → all_token k ≡ true → starts_blank (k ++ more) ≡ false
unfolding all_token
front_unblank [] more h t = cc
front_unblank (c ∷ k) more h t =
    let (t1, t2) = and_parts (is_token c) (all_token k) t in
    rw (token_other b' ' c outside.2 t1, token_other b'\t' c outside.3 t1) refl

trim_left-front : (s : Bytes) → starts_blank s ≡ false → trim_left s ≡ s
unfolding trim_left
trim_left-front [] h = refl
trim_left-front (c ∷ s) h = rw h refl

pub trim-line : (p : Bytes × Bytes) → IsLine p → trim (p.0 ++ (codes ": " ++ p.1)) ≡ line_of p
unfolding trim
trim-line p h =
    let spaced = codes ": " ++ p.1 in
    ap trim_right (trim_left-front (p.0 ++ spaced) (front_unblank p.0 spaced h.some_key h.token))
    ∙ trim_right-append p.0 spaced (b':' ∷ clipped p.1) (trim_right-clipped p.1 h.back) refl

clipped_bytes : (v : Bytes) → are_value_bytes v ≡ true → are_value_bytes (clipped v) ≡ true
unfolding are_value_bytes
clipped_bytes [] h = refl
clipped_bytes (c ∷ v) h = h

trim_left-clipped : (v : Bytes) → starts_blank v ≡ false → trim_left (clipped v) ≡ v
unfolding trim_left
trim_left-clipped [] h = refl
trim_left-clipped (c ∷ v) h = rw h refl

mime_key_lem : (k : Bytes) → all_token k ≡ true → canonical_from true k ≡ k → mime_key k ≡ some k
unfolding mime_key
mime_key_lem k t c = let (good, tight) = token_bytes k t in rw (good, tight, c) refl

add_keyed_lem :
    (m : Header) (k v w : Bytes)
    → is_empty k ≡ false
    → trim_left v ≡ w
    → add_keyed m k v ≡ some (append_value m k w)
add_keyed_lem m [] v w h e = cc
add_keyed_lem m (c ∷ k) v w h e = ap (λ t. some (append_value m (c ∷ k) t)) e

-- A field's line adds its value.
pub add_line_lem :
    (m : Header) (p : Bytes × Bytes)
    → IsLine p
    → add_line m (line_of p) ≡ some (append_value m p.0 p.1)
unfolding add_line
add_line_lem m p h =
    ap (add_cut m) (cut_colon_lem p.0 (clipped p.1) h.token)
    ∙ ap (λ t. add_checked m t (mime_key p.0) (clipped p.1)) (clipped_bytes p.1 h.value)
    ∙ ap (λ t. add_checked m true t (clipped p.1)) (mime_key_lem p.0 h.token h.canonical)
    ∙ add_keyed_lem m p.0 (clipped p.1) p.1 h.some_key (trim_left-clipped p.1 h.front)
