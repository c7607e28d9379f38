-- ===== src/Http/Laws.antt =====
-- The map laws of a header.
use go_grpc_http.Common.{
  none, some, List, [], ◌∷◌, ◌++◌, if◌then◌else◌, equal, equal_iff, Bytes, ◌≡◌, refl, arith,
}
use go_grpc_http.Http.{Header, values, store, delete, set, add, del, or_empty, canonical_header_key}

pub values-store :
    (h : Header) (k j : Bytes) (vs : List Bytes)
    → values (store h k vs) j ≡ (if equal k j then some vs else values h j)
unfolding values store
values-store [] k j vs = refl
values-store ((i, ws) ∷ h) k j vs =
    ground (arith, equal_iff k j, equal_iff i k, equal_iff i j, values-store h k j vs)

pub values-delete :
    (h : Header) (k j : Bytes) → values (delete h k) j ≡ (if equal k j then none else values h j)
unfolding values delete
values-delete [] k j = ground arith
values-delete ((i, ws) ∷ h) k j =
    ground (arith, equal_iff k j, equal_iff i k, equal_iff i j, values-delete h k j)

-- The same for the methods, which put the key into its canonical form.
pub values-set :
    (h : Header) (k v j : Bytes)
    → values (set h k v) j
      ≡ (if equal (canonical_header_key k) j then some (v ∷ []) else values h j)
unfolding set
values-set h k v j = values-store h (canonical_header_key k) j (v ∷ [])

pub values-add :
    (h : Header) (k v j : Bytes)
    → values (add h k v) j ≡ (
        if equal (canonical_header_key k) j
        then some (or_empty (values h (canonical_header_key k)) ++ v ∷ [])
        else values h j)
unfolding add
values-add h k v j = values-store h (canonical_header_key k) j _

pub values-del :
    (h : Header) (k j : Bytes)
    → values (del h k) j ≡ (if equal (canonical_header_key k) j then none else values h j)
unfolding del
values-del h k j = values-delete h (canonical_header_key k) j
