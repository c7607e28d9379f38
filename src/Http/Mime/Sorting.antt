-- ===== src/Http/Mime/Sorting.antt =====
-- The sorted header of `(http.Header).Write` is the same map.
use go_grpc_http.Common.{
  none, some, List, [], ◌∷◌, if◌then◌else◌, equal, equal_iff, Bytes, ◌≡◌, refl, ap, ◌∙◌, arith, All,
  Bool-cases, inl, inr,
}
use go_grpc_http.Http.{Header, values}
use go_grpc_http.Http.Wire.{less, insert_field, sort_fields}

-- No key twice.
abbrev pub IsMap : Header → Type 0
IsMap [] = Unit
IsMap ((k, vs) ∷ h) = (values h k ≡ none) × IsMap h

-- Sorting keeps the map.
values-insert :
    (f : Bytes × List Bytes) (h : Header) (j : Bytes)
    → values h f.0 ≡ none
    → values (insert_field f h) j ≡ (if equal f.0 j then some f.1 else values h j)
unfolding values insert_field
values-insert f [] j n = refl
values-insert f (g ∷ h) j n =
    ground (arith, equal_iff f.0 j, equal_iff g.0 j, equal_iff g.0 f.0, values-insert f h j)

no_later : (f g : Bytes × List Bytes) (h : Header) → values (g ∷ h) f.0 ≡ none → values h f.0 ≡ none
unfolding values
no_later f g h n = ground (arith, equal_iff g.0 f.0)

apart :
    (f g : Bytes × List Bytes) (h : Header)
    → values (g ∷ h) f.0 ≡ none
    → values h g.0 ≡ none
    → values (insert_field f h) g.0 ≡ none
unfolding values
apart f g h n u =
    values-insert f h g.0 (no_later f g h n) ∙ ground (arith, equal_iff g.0 f.0, equal_iff f.0 g.0)

insert-IsMap :
    (f : Bytes × List Bytes) (h : Header) → values h f.0 ≡ none → IsMap h → IsMap (insert_field f h)
unfolding values insert_field
insert-IsMap f [] n u = (refl, tt)
insert-IsMap f (g ∷ h) n u = elim (Bool-cases (less f.0 g.0)) [
  | inl e ↦ rw e (n, u)
  | inr e ↦ rw e (apart f g h n u.0, insert-IsMap f h (no_later f g h n) u.1)
]

insert-All :
    (P : Bytes × List Bytes → Type 0) (f : Bytes × List Bytes) (h : Header)
    → P f
    → All P h
    → All P (insert_field f h)
unfolding insert_field
insert-All P f [] p ps = (p, tt)
insert-All P f (g ∷ h) p ps = elim (Bool-cases (less f.0 g.0)) [
  | inl e ↦ rw e (p, ps)
  | inr e ↦ rw e (ps.0, insert-All P f h p ps.1)
]

pub values-sort :
    (h : Header) (j : Bytes)
    → IsMap h
    → IsMap (sort_fields h) × (values (sort_fields h) j ≡ values h j)
unfolding sort_fields values
values-sort [] j u = (tt, refl)
values-sort ((k, vs) ∷ h) j u =
    let fresh = (values-sort h k u.1).1 ∙ u.0 in
    let (sorted, same) = values-sort h j u.1 in
    (
      insert-IsMap (k, vs) (sort_fields h) fresh sorted,
      values-insert (k, vs) (sort_fields h) j fresh
          ∙ ap (λ t. if equal k j then some vs else t) same,
    )

pub sort-All : (P : Bytes × List Bytes → Type 0) (h : Header) → All P h → All P (sort_fields h)
unfolding sort_fields
sort-All P [] ps = tt
sort-All P (f ∷ h) ps = insert-All P f (sort_fields h) ps.0 (sort-All P h ps.1)
