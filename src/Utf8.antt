-- ===== src/Utf8.antt =====
-- `unicode/utf8` as internal/grpcproto/message.go uses it: `DecodeRuneInString` and the conversion of
-- a rune to a string. A rune is a number; `rune_error` is U+FFFD.
pub mod Sequences
use go_grpc_http.Common.{
  ℕ, ◌+◌, ◌-◌, ◌*◌, ◌/◌, ◌%◌, Bool, true, false, ◌&&◌, List, [], ◌∷◌, ltb, leb, ◌==◌, if◌then◌else◌,
  Bytes,
}

abbrev pub rune_error : ℕ
rune_error = 0xfffd

abbrev pub within : ℕ → ℕ → ℕ → Bool
within lo hi b = leb lo b && leb b hi

abbrev pub is_continuation : ℕ → Bool
is_continuation = within 0x80 0xbf

-- The range of the second byte behind a first byte, as the table `first` and `acceptRanges` give it.
abbrev pub second_byte : ℕ → ℕ → Bool
second_byte b0 b1 =
    within (if b0 == 0xe0 then 0xa0 else if b0 == 0xf0 then 0x90 else 0x80)
      (if b0 == 0xed then 0x9f else if b0 == 0xf4 then 0x8f else 0xbf) b1

abbrev pub bad_rune : ℕ × ℕ
bad_rune = (rune_error, 1)

-- The rest of a sequence that begins with `b0`, for two, three and four bytes.
unfoldable pub decode_two : ℕ → Bytes → ℕ × ℕ
decode_two b0 (b1 ∷ _) =
    if is_continuation b1 then ((b0 - 0xc0) * 64 + (b1 - 0x80), 2) else bad_rune
decode_two b0 [] = bad_rune

unfoldable pub decode_three : ℕ → Bytes → ℕ × ℕ
decode_three b0 (b1 ∷ b2 ∷ _) =
    if second_byte b0 b1 && is_continuation b2
    then ((b0 - 0xe0) * 4096 + (b1 - 0x80) * 64 + (b2 - 0x80), 3)
    else bad_rune
decode_three b0 _ = bad_rune

unfoldable pub decode_four : ℕ → Bytes → ℕ × ℕ
decode_four b0 (b1 ∷ b2 ∷ b3 ∷ _) =
    if second_byte b0 b1 && is_continuation b2 && is_continuation b3
    then ((b0 - 0xf0) * 262144 + (b1 - 0x80) * 4096 + (b2 - 0x80) * 64 + (b3 - 0x80), 4)
    else bad_rune
decode_four b0 _ = bad_rune

-- The rune at the front and the number of bytes that it takes; `(rune_error, 1)` where the bytes are
-- no UTF-8, and `(rune_error, 0)` at the end.
unfoldable pub decode_rune : Bytes → ℕ × ℕ
unfolding decode_two decode_three decode_four
decode_rune [] = (rune_error, 0)
decode_rune (b0 ∷ rest) =
    if ltb b0 0x80
    then (b0, 1)
    else if within 0xc2 0xdf b0
    then decode_two b0 rest
    else if within 0xe0 0xef b0
    then decode_three b0 rest
    else if within 0xf0 0xf4 b0
    then decode_four b0 rest
    else bad_rune

-- `[]byte(string(r))`: a surrogate or a number past U+10FFFF becomes `rune_error`.
abbrev pub encode_three : ℕ → Bytes
encode_three r = (0xe0 + r / 4096) ∷ (0x80 + r / 64 % 64) ∷ (0x80 + r % 64) ∷ []

unfoldable pub encode_rune : ℕ → Bytes
encode_rune r =
    if ltb r 0x80
    then r ∷ []
    else if ltb r 0x800
    then (0xc0 + r / 64) ∷ (0x80 + r % 64) ∷ []
    else if within 0xd800 0xdfff r
    then encode_three rune_error
    else if ltb r 0x10000
    then encode_three r
    else if ltb r 0x110000
    then (0xf0 + r / 262144) ∷ (0x80 + r / 4096 % 64) ∷ (0x80 + r / 64 % 64) ∷ (0x80 + r % 64) ∷ []
    else encode_three rune_error
