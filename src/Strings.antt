-- ===== src/Strings.antt =====
-- internal/stringutils/split.go, internal/sliceutils/utils.go, and what the repository uses of `strings`.
-- A nil slice is `none`.
pub mod Split
use go_grpc_http.Common.{
  ℕ, zero, suc, ◌+◌, ◌-◌, Bool, true, false, not, ◌&&◌, ◌||◌, Option, none, some, List, [], ◌∷◌,
  ◌++◌, ltb, leb, ◌==◌, if◌then◌else◌, length, take, drop, equal, Bytes,
}
use go_grpc_http.Utf8.{decode_rune, within}
use mathlib.Core.Option

-- `strings.HasPrefix`.
unfoldable pub has_prefix : Bytes → Bytes → Bool
has_prefix s [] = true
has_prefix [] (p ∷ ps) = false
has_prefix (c ∷ cs) (p ∷ ps) = c == p && has_prefix cs ps

-- `strings.Index`; `none` is -1.
unfoldable pub index : Bytes → Bytes → Option ℕ
unfolding has_prefix
index [] sep = if has_prefix [] sep then some 0 else none
index (c ∷ cs) sep =
    let later = Option.map suc (index cs sep) in if has_prefix (c ∷ cs) sep then some 0 else later

-- `Split2`.
unfoldable pub split2 : Bytes → Bytes → Bytes × Bytes
unfolding index
split2 str sep = elim (index str sep) [
  | none ↦ (str, [])
  | some i ↦ (take i str, drop (i + length sep) str)
]

-- `Find` over strings; `none` is -1.
unfoldable pub find : List Bytes → Bytes → Option ℕ
unfolding equal
find [] elem = none
find (x ∷ xs) elem =
    let later = Option.map suc (find xs elem) in if equal x elem then some 0 else later

abbrev pub found : Option ℕ → Bool
found none = false
found (some _) = true

-- `ShallowClone`: a nil slice stays nil, also where an empty one was wanted.
unfoldable pub shallow_clone {ℓ} : {A : Type ℓ} → Option (List A) → Option (List A)
shallow_clone none = none
shallow_clone (some []) = some []
shallow_clone (some (x ∷ xs)) = some (x ∷ xs)

-- `strings.Join`.
unfoldable pub join : List Bytes → Bytes → Bytes
join [] sep = []
join (x ∷ []) sep = x
join (x ∷ y ∷ ys) sep = x ++ (sep ++ join (y ∷ ys) sep)

-- `unicode.IsSpace`.
unfoldable pub is_space : ℕ → Bool
is_space r =
    within 9 13 r
    || r == 0x20
    || r == 0x85
    || r == 0xa0
    || r == 0x1680
    || within 0x2000 0x200a r
    || r == 0x2028
    || r == 0x2029
    || r == 0x202f
    || r == 0x205f
    || r == 0x3000

-- A field that ends, if there is one.
abbrev pub flush : Bytes → List Bytes → List Bytes
flush [] fs = fs
flush (c ∷ cs) fs = (c ∷ cs) ∷ fs

-- `strings.FieldsFunc`: `skip` bytes still belong to the last rune, which was a separator or not.
unfoldable pub fields_from : (ℕ → Bool) → ℕ → Bool → Bytes → Bytes → List Bytes
fields_from sep skip inside field [] = flush field []
fields_from sep (suc skip) inside field (b ∷ bs) =
    fields_from sep skip inside (if inside then field ++ b ∷ [] else field) bs
fields_from sep zero inside field (b ∷ bs) =
    let (r, size) = decode_rune (b ∷ bs) in
    let ended = flush field (fields_from sep (size - 1) false [] bs) in
    let grown = fields_from sep (size - 1) true (field ++ b ∷ []) bs in
    if sep r then ended else grown

unfoldable pub fields_func : Bytes → (ℕ → Bool) → List Bytes
unfolding fields_from
fields_func s sep = fields_from sep 0 true [] s

-- A rune against a lower-case ASCII letter under simple folding, the long s and the Kelvin sign
-- included.
abbrev pub folds_to : ℕ → ℕ → Bool
folds_to r c =
    r == c
    || (within b'A' b'Z' r && r + 32 == c)
    || (r == 0x17f && c == b's')
    || (r == 0x212a && c == b'k')

-- `strings.EqualFold(s, t)` for a text `t` of lower-case ASCII letters.
unfoldable pub equal_fold : Bytes → Bytes → Bool
equal_fold [] [] = true
equal_fold (b ∷ bs) [] = false
equal_fold [] (c ∷ cs) = false
equal_fold (b ∷ bs) (c ∷ cs) =
    let (r, size) = decode_rune (b ∷ bs) in folds_to r c && equal_fold (drop size (b ∷ bs)) cs
