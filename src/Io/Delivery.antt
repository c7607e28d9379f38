-- ===== src/Io/Delivery.antt =====
-- A reader as the bytes that it delivers and the error that it ends with, whatever its chunks.
use go_grpc_http.Common.{
  ℕ, zero, suc, ◌-◌, ◌≤◌, ◌<◌, Option, none, some, [], ◌∷◌, ◌++◌, ltb, ◌==◌, length, take, drop,
  Bytes, ◌≡◌, refl, sym, ap, ◌⊎◌, inl, inr, arith, length-append, Bool-cases, take_all, drop_all,
  take-append_more, drop-append_more, take-append_less, drop-append_less, take-append_length,
  drop-append_length,
}
use go_grpc_http.Errors.{Error, eof}
use go_grpc_http.Io.{Reader, Transfer, behind, copy_n, read_all}

-- An error behind the last bytes comes again, or comes alone.
pub data Delivers : Reader → Bytes → Error → Type 0 where
  ended : Delivers [] [] eof
  failed : {r : Reader} {e : Error} → Delivers (([], some e) ∷ r) [] e
  last : {r : Reader} {c : Bytes} {e : Error} → Delivers r [] e → Delivers ((c, some e) ∷ r) c e
  chunk :
      {r : Reader} {c bs bs' : Bytes} {e : Error}
      → Delivers r bs e
      → bs' ≡ c ++ bs
      → Delivers ((c, none) ∷ r) bs' e

-- A copy of no more than there is succeeds, and the rest is delivered later.
pub data Copied (n : ℕ) (bs : Bytes) (e : Error) (t : Transfer) : Type 0 where
  enough :
      n ≤ length bs
      → t.bytes ≡ take n bs
      → t.error ≡ none
      → Delivers t.rest (drop n bs) e
      → Copied n bs e t
  short : length bs < n → t.bytes ≡ bs → t.error ≡ some e → Copied n bs e t

Copied-chunk :
    (n : ℕ) (c bs : Bytes) (e : Error) (t : Transfer)
    → length c < suc n
    → Copied (suc n - length c) bs e t
    → Copied (suc n) (c ++ bs) e (behind c t)
Copied-chunk n c bs e t h (enough le same err more) =
    enough (omega (arith, length-append c bs))
      (rw same (sym (take-append_more (suc n) c bs (omega arith)))) err
      (rw (drop-append_more (suc n) c bs (omega arith)) more)
Copied-chunk n c bs e t h (short lt same err) =
    short (omega (arith, length-append c bs)) (rw same) err

-- `io.CopyN` depends on the bytes and the last error alone, not on the chunks.
pub copy_n-Copied :
    (n : ℕ) {r : Reader} {bs : Bytes} {e : Error} → Delivers r bs e → Copied n bs e (copy_n n r)
unfolding copy_n
copy_n-Copied zero d = enough (omega arith) refl refl d
copy_n-Copied (suc n) ended = short (omega arith) refl refl
copy_n-Copied (suc n) failed = short (omega arith) (ground arith) (ground arith)
copy_n-Copied (suc n) (last {r} {c} {e} d) = elim (Bool-cases (ltb (suc n) (length c))) [
  | inl more ↦ rw more (enough (ground arith) refl refl (last d))
  | inr less ↦ elim (Bool-cases (length c == suc n)) [
    | inl same ↦
        rw (less, same)
          (enough (ground arith) (sym (take_all (suc n) c (ground arith))) refl
            (rw (drop_all (suc n) c (ground arith)) d))
    | inr other ↦ rw (less, other) (short (ground arith) refl refl)
  ]
]
copy_n-Copied (suc n) (chunk {r} {c} {bs} {bs'} {e} d p) =
    elim (Bool-cases (ltb (suc n) (length c))) [
      | inl more ↦
          rw (more, p)
            (enough (ground (arith, length-append c bs))
              (sym (take-append_less (suc n) c bs (ground arith))) refl
              (chunk d (drop-append_less (suc n) c bs (ground arith))))
      | inr less ↦ elim (Bool-cases (length c == suc n)) [
        | inl same ↦
            rw (less, same, p)
              (enough (ground (arith, length-append c bs))
                (sym (take-append_length (suc n) c bs (ground arith))) refl
                (rw (drop-append_length (suc n) c bs (ground arith)) d))
        | inr other ↦
            rw (less, other, p)
              (Copied-chunk n c bs e _ (ground arith) (copy_n-Copied (suc n - length c) d))
      ]
    ]

-- The error that `ReadFrom` reports: none at the end of the stream.
abbrev pub unless_eof : Error → Option Error
unless_eof eof = none
unless_eof e = some e

-- Reading to the end gives all the bytes.
pub read_all-Delivers :
    {r : Reader} {bs : Bytes} {e : Error}
    → Delivers r bs e
    → ((read_all r).bytes ≡ bs) × ((read_all r).error ≡ unless_eof e)
unfolding read_all
read_all-Delivers ended = (refl, refl)
read_all-Delivers (failed {e}) = ground arith
read_all-Delivers (last {e} d) = ground arith
read_all-Delivers (chunk {c = c} d p) =
    let (same, err) = read_all-Delivers d in (rw p (ap (◌++◌ c) same), err)

-- The same as an equation for the whole result.
pub copy_n_cases :
    (n : ℕ) {r : Reader} {bs : Bytes} {e : Error}
    → Delivers r bs e
    → ((r' : Reader) × (n ≤ length bs)
        × Delivers r' (drop n bs) e
        × (copy_n n r ≡ record { bytes = take n bs; error = none; rest = r' }))
      ⊎ ((r' : Reader) × (length bs < n)
          × (copy_n n r ≡ record { bytes = bs; error = some e; rest = r' }))
copy_n_cases n d = from_Copied (copy_n-Copied n d)
  where
    from_Copied :
        {n : ℕ} {bs : Bytes} {e : Error} {t : Transfer}
        → Copied n bs e t
        → ((r' : Reader) × (n ≤ length bs)
            × Delivers r' (drop n bs) e
            × (t ≡ record { bytes = take n bs; error = none; rest = r' }))
          ⊎ ((r' : Reader) × (length bs < n)
              × (t ≡ record { bytes = bs; error = some e; rest = r' }))
    from_Copied {t = t} (enough le same err more) =
        inl (t.rest, le, more, λ i. record { bytes = same i; error = err i; rest = t.rest })
    from_Copied {t = t} (short lt same err) =
        inr (t.rest, lt, λ i. record { bytes = same i; error = err i; rest = t.rest })
