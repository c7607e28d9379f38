-- ===== src/Http/Wire.antt =====
-- `(http.Header).Write`: the fields of a header, sorted by their keys, one line for each value.
use go_grpc_http.Common.{
  ℕ, Bool, true, false, not, ◌&&◌, ◌||◌, List, [], ◌∷◌, ◌++◌, ltb, ◌==◌, if◌then◌else◌, Bytes,
  codes,
}
use go_grpc_http.Http.{Header, all_token}

-- The order of strings.
unfoldable pub less : Bytes → Bytes → Bool
less xs [] = false
less [] (y ∷ ys) = true
less (x ∷ xs) (y ∷ ys) = ltb x y || (x == y && less xs ys)

unfoldable pub insert_field : Bytes × List Bytes → Header → Header
unfolding less
insert_field f [] = f ∷ []
insert_field f (g ∷ h) =
    let later = g ∷ insert_field f h in if less f.0 g.0 then f ∷ g ∷ h else later

unfoldable pub sort_fields : Header → Header
unfolding insert_field
sort_fields [] = []
sort_fields (f ∷ h) = insert_field f (sort_fields h)

-- `headerNewlineToSpace`.
abbrev pub newline_to_space : ℕ → ℕ
newline_to_space c = if c == b'\n' || c == b'\r' then b' ' else c

-- `isASCIISpace`.
abbrev pub is_ascii_space : ℕ → Bool
is_ascii_space c = c == b' ' || c == b'\t' || c == b'\n' || c == b'\r'

unfoldable pub trim_front : Bytes → Bytes
trim_front [] = []
trim_front (c ∷ cs) = let rest = trim_front cs in if is_ascii_space c then rest else c ∷ cs

-- A byte in front of a text whose end is trimmed.
abbrev pub keep_unless_blank : ℕ → Bytes → Bytes
keep_unless_blank c [] = if is_ascii_space c then [] else c ∷ []
keep_unless_blank c (d ∷ ds) = c ∷ d ∷ ds

unfoldable pub trim_back : Bytes → Bytes
trim_back [] = []
trim_back (c ∷ cs) = keep_unless_blank c (trim_back cs)

unfoldable pub clean : Bytes → Bytes
clean [] = []
clean (c ∷ cs) = newline_to_space c ∷ clean cs

-- The line of one value.
unfoldable pub field_line : Bytes → Bytes → Bytes
unfolding trim_front trim_back clean
field_line k v = k ++ (codes ": " ++ (trim_back (trim_front (clean v)) ++ codes "\r\n"))

unfoldable pub field_lines : Bytes → List Bytes → Bytes
unfolding field_line
field_lines k [] = []
field_lines k (v ∷ vs) = field_line k v ++ field_lines k vs

abbrev pub is_empty : Bytes → Bool
is_empty [] = true
is_empty (_ ∷ _) = false

-- A key that is no token is left out.
unfoldable pub write_fields : Header → Bytes
unfolding field_lines
write_fields [] = []
write_fields ((k, vs) ∷ h) =
    let rest = write_fields h in
    if not (is_empty k) && all_token k then field_lines k vs ++ rest else rest

unfoldable pub write_header_bytes : Header → Bytes
unfolding write_fields sort_fields
write_header_bytes h = write_fields (sort_fields h)
