-- ===== src/Proto/Percent.antt =====
-- internal/grpcproto/message.go: the percent encoding of a `grpc-message` header.
pub mod Decoding
use go_grpc_http.Common.{
  ℕ, zero, suc, ◌+◌, ◌-◌, ◌/◌, ◌%◌, Bool, true, false, not, ◌&&◌, ◌||◌, Option, none, some, List,
  [], ◌∷◌, ◌++◌, ltb, leb, ◌==◌, if◌then◌else◌, length, drop, Bytes,
}
use go_grpc_http.Utf8.{decode_rune, encode_rune}
use mathlib.Core.Option

abbrev pub space_byte : ℕ
space_byte = b' '

abbrev pub tilde_byte : ℕ
tilde_byte = b'~'

abbrev pub percent_byte : ℕ
percent_byte = b'%'

-- `c >= spaceByte && c <= tildeByte && c != percentByte`
abbrev pub is_allowed : ℕ → Bool
is_allowed c = leb space_byte c && leb c tilde_byte && not (c == percent_byte)

-- One digit of `%02X`.
abbrev pub hex_digit : ℕ → ℕ
hex_digit d = if ltb d 10 then b'0' + d else b'A' + (d - 10)

-- `fmt.Sprintf("%%%02X", b)` of a byte.
abbrev pub percent : ℕ → Bytes
percent b = percent_byte ∷ hex_digit (b / 16) ∷ hex_digit (b % 16) ∷ []

-- What the inner loop writes for one byte of a rune that took `size` bytes of the message.
unfoldable pub encode_byte : ℕ → ℕ → Bytes
encode_byte size b = if ltb 1 size then percent b else if is_allowed b then b ∷ [] else percent b

-- `for _, b := range []byte(string(r))`
unfoldable pub encode_bytes : ℕ → Bytes → Bytes
encode_bytes size [] = []
encode_bytes size (b ∷ bs) = encode_byte size b ++ encode_bytes size bs

-- `for len(msg) > 0`, on fuel; `none` is no Go value, and means that the fuel ran out.
unfoldable pub encode_loop : ℕ → Bytes → Option Bytes
encode_loop fuel [] = some []
encode_loop zero (b ∷ rest) = none
encode_loop (suc fuel) (b ∷ rest) =
    let (r, size) = decode_rune (b ∷ rest) in
    Option.map (λ out. encode_bytes size (encode_rune r) ++ out)
      (encode_loop fuel (drop size (b ∷ rest)))

unfoldable pub encode_grpc_message_unchecked : Bytes → Option Bytes
unfolding encode_loop encode_bytes encode_byte
encode_grpc_message_unchecked msg = encode_loop (length msg) msg

-- The loop of `EncodeGrpcMessage`: is there a byte that is not allowed?
unfoldable pub needs_encoding : Bytes → Bool
needs_encoding [] = false
needs_encoding (c ∷ cs) = not (is_allowed c) || needs_encoding cs

unfoldable pub encode_grpc_message : Bytes → Option Bytes
unfolding encode_grpc_message_unchecked needs_encoding
encode_grpc_message [] = some []
encode_grpc_message (c ∷ cs) =
    if needs_encoding (c ∷ cs) then encode_grpc_message_unchecked (c ∷ cs) else some (c ∷ cs)
