-- ===== src/Io/Reading.antt =====
-- Single calls of `Read` on a reader that ends with io.EOF.
use go_grpc_http.Common.{
  ℕ, zero, suc, ◌+◌, ◌-◌, ◌<◌, ◌≤◌, none, some, [], ◌∷◌, ◌++◌, leb, length, take, drop, Bytes, ◌≡◌,
  refl, sym, ap, ◌∙◌, ◌⊎◌, inl, inr, arith, Bool-cases, append_assoc, take-append-drop, length-drop,
  length-take, length-append,
}
use go_grpc_http.Errors.{eof}
use go_grpc_http.Io.{Reader, Transfer, read, copy_n, copy_n_full}
use go_grpc_http.Io.Delivery.{Delivers, ended, failed, last, chunk}

-- How much a reader has in store: its bytes and its chunks.
abbrev pub weight : Reader → ℕ
weight [] = 0
weight ((c, e) ∷ r) = suc (length c) + weight r

-- What a call with a buffer of `size` bytes gave of `bs`.
pub data Gave (size : ℕ) (r : Reader) (bs : Bytes) : Transfer → Type 0 where
  part :
      (c more : Bytes) (r' : Reader)
      → length c ≤ size
      → bs ≡ c ++ more
      → Delivers r' more eof
      → weight r' < weight r
      → weight r' + length c ≤ weight r
      → Gave size r bs (record { bytes = c; error = none; rest = r' })
  all :
      (c : Bytes) (r' : Reader)
      → length c ≤ size
      → bs ≡ c
      → (bs ≡ []) ⊎ (Delivers r' [] eof × (weight r' + length c < weight r))
      → Gave size r bs (record { bytes = c; error = some eof; rest = r' })

-- The buffer has room for one byte at least.
pub read-Gave :
    (size : ℕ) {r : Reader} {bs : Bytes}
    → 0 < size
    → Delivers r bs eof
    → Gave size r bs (read size r)
unfolding read
read-Gave size h ended = all [] [] (omega arith) refl (inl refl)
read-Gave size h (failed {r}) = elim (Bool-cases (leb 0 size)) [
  | inl fits ↦ rw fits (all [] r (omega arith) refl (inl refl))
  | inr over ↦ absurd (ground arith)
]
read-Gave size h (last {r} {c} d) = elim (Bool-cases (leb (length c) size)) [
  | inl fits ↦ rw fits (all c r (ground arith) refl (inr (d, omega arith)))
  | inr over ↦ rw over (
      part (take size c) (drop size c) ((drop size c, some eof) ∷ r)
        (omega (arith, length-take size c)) (sym (take-append-drop size c)) (last d)
        (ground (arith, length-drop size c))
        (omega (arith, length-drop size c, length-take size c)))
]
read-Gave size h (chunk {r} {c} {bs} {bs'} d e) = elim (Bool-cases (leb (length c) size)) [
  | inl fits ↦ rw fits (part c bs r (ground arith) e d (omega arith) (omega arith))
  | inr over ↦ rw over (
      part (take size c) (drop size c ++ bs) ((drop size c, none) ∷ r)
        (omega (arith, length-take size c))
        (e
          ∙ ap (λ x. x ++ bs) (sym (take-append-drop size c))
          ∙ append_assoc (take size c) (drop size c) bs)
        (chunk d refl) (ground (arith, length-drop size c))
        (omega (arith, length-drop size c, length-take size c)))
]

-- A copy takes its bytes from the store.
pub copy_n-weight :
    (n : ℕ) (r : Reader) → weight (copy_n n r).rest + length (copy_n n r).bytes ≤ weight r
unfolding copy_n
copy_n-weight zero r = omega arith
copy_n-weight (suc n) [] = omega arith
copy_n-weight (suc n) ((c, e) ∷ r) = ground (
  arith,
  copy_n-weight (suc n - length c) r,
  length-append c (copy_n (suc n - length c) r).bytes,
  length-take (suc n) c,
  length-drop (suc n) c,
)

pub copy_n_full-weight :
    (n : ℕ) (r : Reader) → weight (copy_n_full n r).rest + length (copy_n_full n r).bytes ≤ weight r
unfolding copy_n_full
copy_n_full-weight n r = copy_n-weight n r
