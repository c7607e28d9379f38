-- ===== src/Utf8/Sequences.antt =====
-- Decoding and encoding of one rune.
use go_grpc_http.Common.{
  ℕ, suc, ◌+◌, ◌-◌, ◌*◌, ◌≤◌, ◌<◌, true, ◌&&◌, [], ◌∷◌, ltb, Bytes, length, take, arith, ◌≡◌, refl,
  ◌⊎◌, inl, inr, All, Bool-cases,
}
use go_grpc_http.Utf8.{
  within, is_continuation, second_byte, decode_two, decode_three, decode_four, decode_rune,
  encode_rune, bad_rune,
}

encode_two_lem :
    (x y : ℕ) → 2 ≤ x → x < 32 → y < 64 → encode_rune (x * 64 + y) ≡ (0xc0 + x) ∷ (0x80 + y) ∷ []
unfolding encode_rune
encode_two_lem x y l h k = ground arith

encode_three_lem :
    (x y z : ℕ)
    → x < 16
    → y < 64
    → z < 64
    → 32 ≤ x * 64 + y
    → (x * 64 + y < 864) ⊎ (896 ≤ x * 64 + y)
    → encode_rune (x * 4096 + y * 64 + z) ≡ (0xe0 + x) ∷ (0x80 + y) ∷ (0x80 + z) ∷ []
unfolding encode_rune
encode_three_lem x y z a b c l (inl s) = ground arith
encode_three_lem x y z a b c l (inr s) = ground arith

encode_four_lem :
    (x y z w : ℕ)
    → y < 64
    → z < 64
    → w < 64
    → 16 ≤ x * 64 + y
    → x * 64 + y < 272
    → encode_rune (x * 262144 + y * 4096 + z * 64 + w)
      ≡ (0xf0 + x) ∷ (0x80 + y) ∷ (0x80 + z) ∷ (0x80 + w) ∷ []
unfolding encode_rune
encode_four_lem x y z w a b c l s = ground arith

-- What `decode_rune` found at the front of a text that is not empty.
pub data Decoded (b : ℕ) (rest : Bytes) (p : ℕ × ℕ) : Type 0 where
  ascii : b < 128 → p ≡ (b, 1) → Decoded b rest p
  sequence :
      (k : ℕ)
      → 1 ≤ k
      → k ≤ length rest
      → p.1 ≡ suc k
      → encode_rune p.0 ≡ b ∷ take k rest
      → All (λ c. 128 ≤ c) (b ∷ take k rest)
      → Decoded b rest p
  invalid : 128 ≤ b → p ≡ bad_rune → Decoded b rest p

decode_two_lem :
    (b0 : ℕ) (rest : Bytes) → within 0xc2 0xdf b0 ≡ true → Decoded b0 rest (decode_two b0 rest)
unfolding decode_two
decode_two_lem b0 [] h = invalid (ground arith) refl
decode_two_lem b0 (b1 ∷ rest) h = elim (Bool-cases (is_continuation b1)) [
  | inl c ↦
      sequence 1 (omega arith) (omega arith) (ground arith)
        (ground (arith, encode_two_lem (b0 - 0xc0) (b1 - 0x80))) (ground arith)
  | inr n ↦ invalid (ground arith) (ground arith)
]

decode_three_lem :
    (b0 : ℕ) (rest : Bytes) → within 0xe0 0xef b0 ≡ true → Decoded b0 rest (decode_three b0 rest)
unfolding decode_three
decode_three_lem b0 [] h = invalid (ground arith) refl
decode_three_lem b0 (b1 ∷ []) h = invalid (ground arith) refl
decode_three_lem b0 (b1 ∷ b2 ∷ rest) h = elim (Bool-cases (second_byte b0 b1)) [
  | inl s ↦ elim (Bool-cases (is_continuation b2)) [
    | inl c ↦
        sequence 2 (omega arith) (omega arith) (rw (s, c))
          (rw (s, c) (ground (arith, encode_three_lem (b0 - 0xe0) (b1 - 0x80) (b2 - 0x80))))
          (ground arith)
    | inr n ↦ invalid (ground arith) (rw (s, n))
  ]
  | inr n ↦ invalid (ground arith) (rw n)
]

decode_four_lem :
    (b0 : ℕ) (rest : Bytes) → within 0xf0 0xf4 b0 ≡ true → Decoded b0 rest (decode_four b0 rest)
unfolding decode_four
decode_four_lem b0 [] h = invalid (ground arith) refl
decode_four_lem b0 (b1 ∷ []) h = invalid (ground arith) refl
decode_four_lem b0 (b1 ∷ b2 ∷ []) h = invalid (ground arith) refl
decode_four_lem b0 (b1 ∷ b2 ∷ b3 ∷ rest) h = elim (Bool-cases (second_byte b0 b1)) [
  | inl s ↦ elim (Bool-cases (is_continuation b2 && is_continuation b3)) [
    | inl c ↦
        sequence 3 (omega arith) (omega arith) (rw (s, c))
          (rw (s, c)
            (ground (arith, encode_four_lem (b0 - 0xf0) (b1 - 0x80) (b2 - 0x80) (b3 - 0x80))))
          (ground arith)
    | inr n ↦ invalid (ground arith) (rw (s, n))
  ]
  | inr n ↦ invalid (ground arith) (rw n)
]

-- `DecodeRuneInString` finds an ASCII byte, a sequence of two to four bytes that the rune encodes to, or
-- a byte that it replaces by U+FFFD.
pub decode_rune-Decoded : (b : ℕ) (rest : Bytes) → Decoded b rest (decode_rune (b ∷ rest))
unfolding decode_rune
decode_rune-Decoded b rest = elim (Bool-cases (ltb b 0x80)) [
  | inl a ↦ ascii (ground arith) (rw a)
  | inr a ↦ elim (Bool-cases (within 0xc2 0xdf b)) [
    | inl t ↦ rw (a, t) (decode_two_lem b rest t)
    | inr t ↦ elim (Bool-cases (within 0xe0 0xef b)) [
      | inl u ↦ rw (a, t, u) (decode_three_lem b rest u)
      | inr u ↦ elim (Bool-cases (within 0xf0 0xf4 b)) [
        | inl v ↦ rw (a, t, u, v) (decode_four_lem b rest v)
        | inr v ↦ invalid (ground arith) (rw (a, t, u, v))
      ]
    ]
  ]
]
