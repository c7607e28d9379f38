-- ===== src/Proto/Headers.antt =====
-- The header as an encoding of flags and length.
use go_grpc_http.Common.{ℕ, ◌≡◌, refl, ap, [], ◌∷◌, arith, length, All, Bytes}
use go_grpc_http.Errors.{ok}
use go_grpc_http.Proto.{IsByte, IsU32, parse_message_header, make_message_header}

-- Parsing a made header gives back its flags and its length, for every length that fits 32 bits.
pub parse_message_header-make :
    (flags n : ℕ) → IsU32 n → parse_message_header (make_message_header flags n) ≡ ok (flags, n)
unfolding parse_message_header make_message_header
parse_message_header-make flags n h = ap (λ m. ok (flags, m)) (omega arith)

pub length-make_message_header : (flags n : ℕ) → length (make_message_header flags n) ≡ 5
unfolding make_message_header
length-make_message_header flags n = refl

pub make_message_header-IsByte :
    (flags n : ℕ) → IsByte flags → All IsByte (make_message_header flags n)
unfolding make_message_header
make_message_header-IsByte flags n h = omega arith

-- Every header of bytes that parses is the one that is made from what is parsed from it, and that is a
-- byte and 32 bits.
pub make-parse_message_header :
    (header : Bytes) {flags n : ℕ}
    → All IsByte header
    → parse_message_header header ≡ ok (flags, n)
    → (make_message_header flags n ≡ header) × IsByte flags × IsU32 n
unfolding parse_message_header make_message_header
make-parse_message_header (f ∷ a ∷ b ∷ c ∷ d ∷ []) h e = ground arith
make-parse_message_header _ h e = ground arith
