-- ===== src/Io/Limited.antt =====
-- What `io.ReadAll` of an `io.LimitReader` takes and leaves.
use go_grpc_http.Common.{
  ℕ, zero, suc, ◌-◌, ◌≤◌, false, none, some, [], ◌∷◌, ◌++◌, ltb, length, take, drop, Bytes, ◌≡◌,
  refl, sym, ap, ◌∙◌, arith, Bool-cases, inl, inr, append_assoc, length-append, length-take,
  take-append-drop,
}
use go_grpc_http.Errors.{eof}
use go_grpc_http.Io.{Reader, read_all_limited}

not_less : (a b : ℕ) → ltb a b ≡ false → b ≤ a
not_less a b e = ground arith

pub read_all_limited_lem : (n : ℕ) (r : Reader) → length (read_all_limited n r).bytes ≤ n
unfolding read_all_limited
read_all_limited_lem zero r = omega arith
read_all_limited_lem (suc n) [] = omega arith
read_all_limited_lem (suc n) ((chunk, none) ∷ r) = elim (Bool-cases (ltb (suc n) (length chunk))) [
  | inl e ↦ rw e (omega (arith, length-take (suc n) chunk))
  | inr e ↦
      let more = read_all_limited (suc n - length chunk) r in
      rw e (
        omega (
          arith,
          not_less (suc n) (length chunk) e,
          read_all_limited_lem (suc n - length chunk) r,
          length-append chunk more.bytes,
        ))
]
read_all_limited_lem (suc n) ((chunk, some eof) ∷ r) =
    elim (Bool-cases (ltb (suc n) (length chunk))) [
      | inl f ↦ rw f (omega (arith, length-take (suc n) chunk))
      | inr f ↦ rw f (not_less (suc n) (length chunk) f)
    ]
read_all_limited_lem (suc n) ((chunk, some e) ∷ r) =
    elim (Bool-cases (ltb (suc n) (length chunk))) [
      | inl f ↦ rw f (omega (arith, length-take (suc n) chunk))
      | inr f ↦ rw f (not_less (suc n) (length chunk) f)
    ]

-- All the bytes of a body, those behind its errors too.
abbrev pub content : Reader → Bytes
content [] = []
content ((chunk, e) ∷ r) = chunk ++ content r

-- The bytes of a piece that is longer than the limit.
split_chunk :
    (n : ℕ) (chunk : Bytes) (r : Reader)
    → chunk ++ content r ≡ take n chunk ++ (drop n chunk ++ content r)
split_chunk n chunk r =
    ap (λ c. c ++ content r) (sym (take-append-drop n chunk))
    ∙ append_assoc (take n chunk) (drop n chunk) (content r)

-- What is taken and what is left are the body.
pub read_all_limited-content :
    (n : ℕ) (r : Reader)
    → content r ≡ (read_all_limited n r).bytes ++ content (read_all_limited n r).rest
unfolding read_all_limited
read_all_limited-content zero r = refl
read_all_limited-content (suc n) [] = refl
read_all_limited-content (suc n) ((chunk, none) ∷ r) =
    elim (Bool-cases (ltb (suc n) (length chunk))) [
      | inl e ↦ rw e (split_chunk (suc n) chunk r)
      | inr e ↦
          let more = read_all_limited (suc n - length chunk) r in
          rw e (
            ap (λ c. chunk ++ c) (read_all_limited-content (suc n - length chunk) r)
            ∙ sym (append_assoc chunk more.bytes (content more.rest)))
    ]
read_all_limited-content (suc n) ((chunk, some eof) ∷ r) =
    elim (Bool-cases (ltb (suc n) (length chunk))) [
      | inl f ↦ rw f (split_chunk (suc n) chunk r)
      | inr f ↦ rw f refl
    ]
read_all_limited-content (suc n) ((chunk, some e) ∷ r) =
    elim (Bool-cases (ltb (suc n) (length chunk))) [
      | inl f ↦ rw f (split_chunk (suc n) chunk r)
      | inr f ↦ rw f refl
    ]
