-- ===== src/Http/Mime/RoundTrip.antt =====
-- What `(http.Header).Write` writes, `ReadMIMEHeader` reads back.
use go_grpc_http.Common.{
  subst, true, false, none, some, List, [], ◌∷◌, ◌++◌, if◌then◌else◌, equal, equal_iff, Bytes,
  codes, ◌≡◌, refl, sym, ap, ◌∙◌, arith, All, Bool-cases, inl, inr, append_assoc, append-nil, map,
}
use go_grpc_http.Errors.{Error}
use go_grpc_http.Http.{Header, values, store, or_empty, canonical_header_key}
use go_grpc_http.Http.Laws.{values-store}
use go_grpc_http.Http.Wire.{field_line, field_lines, write_fields, write_header_bytes, sort_fields}
use go_grpc_http.Http.Mime.{are_value_bytes, append_value, parsed, read_mime_header}
use go_grpc_http.Http.Mime.Lines.{text, IsLine}
use go_grpc_http.Http.Mime.Text.{collect, read_mime_header-text}
use go_grpc_http.Http.Mime.Sent.{sent, IsField, sent-IsLine}
use go_grpc_http.Http.Mime.Sorting.{IsMap, values-sort, sort-All}

abbrev entries : Bytes → List Bytes → List (Bytes × Bytes)
entries k [] = []
entries k (v ∷ vs) = (k, sent v) ∷ entries k vs

abbrev pairs : Header → List (Bytes × Bytes)
pairs [] = []
pairs ((k, vs) ∷ h) = entries k vs ++ pairs h

field_lines-text :
    (k : Bytes) (vs : List Bytes) (ps : List (Bytes × Bytes))
    → field_lines k vs ++ text ps ≡ text (entries k vs ++ ps)
unfolding field_lines field_line sent
field_lines-text k [] ps = refl
field_lines-text k (v ∷ vs) ps =
    let later = text (entries k vs ++ ps) in
    append_assoc (field_line k v) (field_lines k vs) (text ps)
    ∙ ap (field_line k v ++◌) (field_lines-text k vs ps)
    ∙ append_assoc k (codes ": " ++ (sent v ++ codes "\r\n")) later
    ∙ ap (λ t. k ++ (codes ": " ++ t)) (append_assoc (sent v) (codes "\r\n") later)
    ∙ sym (append_assoc k (codes ": " ++ sent v) (codes "\r\n" ++ later))

write_fields-text : (h : Header) → All IsField h → write_fields h ≡ text (pairs h)
unfolding write_fields
write_fields-text [] fs = refl
write_fields-text ((k, vs) ∷ h) fs =
    rw (fs.0.some_key, fs.0.token)
      (ap (field_lines k vs ++◌) (write_fields-text h fs.1) ∙ field_lines-text k vs (pairs h))

-- The values that a list of fields has for a key.
abbrev pick : Bytes → List (Bytes × Bytes) → List Bytes
pick j [] = []
pick j ((k, v) ∷ ps) = let more = pick j ps in if equal k j then v ∷ more else more

values-append :
    (m : Header) (k v j : Bytes)
    → values (append_value m k v) j
      ≡ (if equal k j then some (or_empty (values m k) ++ v ∷ []) else values m j)
unfolding append_value
values-append m k v j = values-store m k j (or_empty (values m k) ++ v ∷ [])

collect_step :
    (m : Header) (k v j : Bytes) (more : List Bytes)
    → or_empty (if equal k j then some (or_empty (values m k) ++ v ∷ []) else values m j) ++ more
      ≡ or_empty (values m j) ++ (if equal k j then v ∷ more else more)
collect_step m k v j more = elim (Bool-cases (equal k j)) [
  | inl e ↦ rw e (
      append_assoc (or_empty (values m k)) (v ∷ []) more
      ∙ ap (λ t. or_empty (values m t) ++ v ∷ more) ((equal_iff k j).0 e))
  | inr e ↦ rw e refl
]

values-collect :
    (m : Header) (ps : List (Bytes × Bytes)) (j : Bytes)
    → or_empty (values (collect m ps) j) ≡ or_empty (values m j) ++ pick j ps
values-collect m [] j = sym (append-nil (or_empty (values m j)))
values-collect m ((k, v) ∷ ps) j =
    values-collect (append_value m k v) ps j
    ∙ (ap (λ t. or_empty t ++ pick j ps) (values-append m k v j) ∙ collect_step m k v j (pick j ps))

pick-entries :
    (j k : Bytes) (vs : List Bytes) (ps : List (Bytes × Bytes))
    → pick j (entries k vs ++ ps) ≡ (if equal k j then map sent vs ++ pick j ps else pick j ps)
pick-entries j k [] ps = ground arith
pick-entries j k (v ∷ vs) ps = ground (arith, pick-entries j k vs ps)

pick-pairs :
    (h : Header) (j : Bytes) → IsMap h → pick j (pairs h) ≡ map sent (or_empty (values h j))
unfolding values
pick-pairs [] j u = refl
pick-pairs ((k, vs) ∷ h) j u =
    pick-entries j k vs (pairs h)
    ∙ ground (arith, equal_iff k j, pick-pairs h j u.1, append-nil (map sent vs))

entries-All :
    (k : Bytes) (ws vs : List Bytes) (ps : List (Bytes × Bytes))
    → IsField (k, ws)
    → All (λ v. are_value_bytes v ≡ true) vs
    → All IsLine ps
    → All IsLine (entries k vs ++ ps)
entries-All k ws [] ps f hs qs = qs
entries-All k ws (v ∷ vs) ps f hs qs = (sent-IsLine k v ws f hs.0, entries-All k ws vs ps f hs.1 qs)

pairs-All : (h : Header) → All IsField h → All IsLine (pairs h)
pairs-All [] fs = tt
pairs-All ((k, vs) ∷ h) fs = entries-All k vs vs (pairs h) fs.0 fs.0.bytes (pairs-All h fs.1)

-- A header whose keys are canonical, each with one entry.
abbrev pub IsCanonical : Header → Type 0
IsCanonical h = IsMap h × All (λ f. canonical_header_key f.0 ≡ f.0) h

line_canonical : (p : Bytes × Bytes) → IsLine p → canonical_header_key p.0 ≡ p.0
unfolding canonical_header_key
line_canonical p l = rw l.token l.canonical

store-None :
    (m : Header) (k j : Bytes) (vs : List Bytes)
    → equal k j ≡ false
    → values m j ≡ none
    → values (store m k vs) j ≡ none
store-None m k j vs apart n = values-store m k j vs ∙ rw apart n

store-IsCanonical :
    (m : Header) (k : Bytes) (vs : List Bytes)
    → canonical_header_key k ≡ k
    → IsCanonical m
    → IsCanonical (store m k vs)
unfolding store values
store-IsCanonical [] k vs c (u, a) = ((refl, tt), (c, tt))
store-IsCanonical ((i, ws) ∷ m) k vs c (u, a) = elim (Bool-cases (equal i k)) [
  | inl e ↦ rw e ((subst (λ t. values m t ≡ none) ((equal_iff i k).0 e) u.0, u.1), (c, a.1))
  | inr e ↦
      let (more, keys) = store-IsCanonical m k vs c (u.1, a.1) in
      rw e (
        (store-None m k i vs (ground (arith, equal_iff i k, equal_iff k i)) u.0, more),
        (a.0, keys),
      )
]

collect-IsCanonical :
    (m : Header) (ps : List (Bytes × Bytes))
    → All IsLine ps
    → IsCanonical m
    → IsCanonical (collect m ps)
unfolding append_value
collect-IsCanonical m [] ls c = c
collect-IsCanonical m (p ∷ ps) ls c =
    collect-IsCanonical (append_value m p.0 p.1) ps ls.1
      (store-IsCanonical m p.0 (or_empty (values m p.0) ++ p.1 ∷ []) (line_canonical p ls.0) c)

-- A written header, with the empty line behind it, is read back, with nothing left over: what is read has
-- the values of the header under every key, in their order, each without the blanks at its ends, and has
-- canonical keys. The
-- header is a map, and its fields are canonical tokens with values of header bytes.
pub read_mime_header-write_header_bytes :
    (e : Error) (h : Header)
    → All IsField h
    → IsMap h
    → (got : Header) × (read_mime_header e (write_header_bytes h ++ codes "\r\n") ≡ parsed got [])
      × IsCanonical got
      × ((k : Bytes) → or_empty (values got k) ≡ map sent (or_empty (values h k)))
unfolding write_header_bytes values
read_mime_header-write_header_bytes e h fs u =
    let sorted = sort_fields h in
    let written = sort-All IsField h fs in
    (
      collect [] (pairs sorted),
      ap (λ t. read_mime_header e (t ++ codes "\r\n")) (write_fields-text sorted written)
          ∙ read_mime_header-text e (pairs sorted) (pairs-All sorted written),
      collect-IsCanonical [] (pairs sorted) (pairs-All sorted written) (tt, tt),
      λ k.
          values-collect [] (pairs sorted) k
          ∙ pick-pairs sorted k (values-sort h k u).0
          ∙ ap (λ t. map sent (or_empty t)) (values-sort h k u).1,
    )
