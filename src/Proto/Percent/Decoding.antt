-- ===== src/Proto/Percent/Decoding.antt =====
-- What a reader of the header gets back.
use go_grpc_http.Common.{
  ℕ, zero, suc, ◌+◌, ◌-◌, ◌*◌, ◌≤◌, ◌<◌, false, Option, some, [], ◌∷◌, ◌++◌, leb, ◌==◌,
  if◌then◌else◌, length, drop, Bytes, arith, ◌≡◌, refl, ap, ◌∙◌, All, All-append, All-take,
  All-drop, append_assoc, length-drop, Bool-cases, inl, inr, ◌≢◌,
}
use go_grpc_http.Utf8.{decode_rune, encode_rune}
use go_grpc_http.Utf8.Sequences.{Decoded, ascii, sequence, invalid, decode_rune-Decoded}
use go_grpc_http.Proto.{IsByte}
use go_grpc_http.Proto.Percent.{
  percent, percent_byte, encode_byte, encode_bytes, encode_loop, needs_encoding,
  encode_grpc_message,
}

-- The value of a hexadecimal digit.
unhex : ℕ → ℕ
unhex d = if leb d b'9' then d - b'0' else d - b'A' + 10

-- Percent decoding as the gRPC protocol describes it: `%` and two digits stand for a byte.
pub percent_decode : Bytes → Bytes
percent_decode (c ∷ h ∷ l ∷ rest) =
    let decoded = (unhex h * 16 + unhex l) ∷ percent_decode rest in
    let literal = c ∷ percent_decode (h ∷ l ∷ rest) in
    if c == percent_byte then decoded else literal
percent_decode (c ∷ rest) = c ∷ rest
percent_decode [] = []

-- A byte that may stand in a header value.
abbrev pub IsPrintable : ℕ → Type 0
IsPrintable b = (b' ' ≤ b) × (b ≤ b'~')

-- `out` is `msg` with each byte that is no part of a UTF-8 sequence replaced by U+FFFD.
pub data Repairs : Bytes → Bytes → Type 0 where
  done : Repairs [] []
  next :
      {b : ℕ} {rest out front back : Bytes}
      → front ≡ encode_rune (decode_rune (b ∷ rest)).0
      → back ≡ drop (decode_rune (b ∷ rest)).1 (b ∷ rest)
      → Repairs back out
      → Repairs (b ∷ rest) (front ++ out)

percent_decode-percent :
    (b : ℕ) (rest : Bytes) → b < 256 → percent_decode (percent b ++ rest) ≡ b ∷ percent_decode rest
unfolding percent_decode unhex
percent_decode-percent b rest h = ap (λ x. x ∷ percent_decode rest) (ground arith)

percent_decode_literal :
    (b : ℕ) (rest : Bytes) → b ≢ 37 → percent_decode (b ∷ rest) ≡ b ∷ percent_decode rest
unfolding percent_decode
percent_decode_literal b [] h = refl
percent_decode_literal b (c ∷ []) h = refl
percent_decode_literal b (c ∷ d ∷ rest) h = ground arith

-- One byte of a rune: what is written is printable and decodes to the byte.
encode_byte_decodes :
    (size b : ℕ) (rest : Bytes)
    → IsByte b
    → percent_decode (encode_byte size b ++ rest) ≡ b ∷ percent_decode rest
unfolding encode_byte
encode_byte_decodes size b rest h =
    ground (arith, percent_decode-percent b rest, percent_decode_literal b rest)

encode_byte-IsPrintable : (size b : ℕ) → IsByte b → All IsPrintable (encode_byte size b)
unfolding encode_byte
encode_byte-IsPrintable size b h = ground arith

encode_bytes_decodes :
    (size : ℕ) (bs rest : Bytes)
    → All IsByte bs
    → percent_decode (encode_bytes size bs ++ rest) ≡ bs ++ percent_decode rest
unfolding encode_bytes
encode_bytes_decodes size [] rest h = refl
encode_bytes_decodes size (b ∷ bs) rest (hb, hs) = rw append_assoc (
    encode_byte_decodes size b (encode_bytes size bs ++ rest) hb
    ∙ ap (◌∷◌ b) (encode_bytes_decodes size bs rest hs))

encode_bytes-IsPrintable :
    (size : ℕ) (bs : Bytes) → All IsByte bs → All IsPrintable (encode_bytes size bs)
unfolding encode_bytes
encode_bytes-IsPrintable size [] h = tt
encode_bytes-IsPrintable size (b ∷ bs) (hb, hs) =
    All-append IsPrintable _ _ (encode_byte-IsPrintable size b hb)
      (encode_bytes-IsPrintable size bs hs)

-- What a round of the loop takes from a text of bytes: some of them, and the rune has bytes again.
Decoded-round :
    (b : ℕ) (rest : Bytes) {p : ℕ × ℕ}
    → All IsByte (b ∷ rest)
    → Decoded b rest p
    → (1 ≤ p.1) × (p.1 ≤ suc (length rest)) × All IsByte (encode_rune p.0)
unfolding encode_rune
Decoded-round b rest h (ascii a e) = rw e (omega arith, omega arith, ground arith)
Decoded-round b rest h (sequence k lo hi size e _) =
    (omega arith, omega arith, rw e (h.0, All-take IsByte k rest h.1))
Decoded-round b rest h (invalid a e) = rw e (omega arith, omega arith, ground arith)

-- A message comes through the loop as printable bytes that decode to its repaired form.
abbrev pub Encodes : Bytes → Option Bytes → Type 0
Encodes msg encoded =
    (out : Bytes) × (encoded ≡ some out) × All IsPrintable out × Repairs msg (percent_decode out)

encode_loop-Encodes :
    (fuel : ℕ) (msg : Bytes)
    → length msg ≤ fuel
    → All IsByte msg
    → Encodes msg (encode_loop fuel msg)
unfolding encode_loop
encode_loop-Encodes fuel [] hf h = ([], refl, tt, unfold percent_decode in done)
encode_loop-Encodes zero (b ∷ rest) hf h = absurd (omega arith)
encode_loop-Encodes (suc fuel) (b ∷ rest) hf h =
    let (r, size) = decode_rune (b ∷ rest) in
    let (lo, hi, bytes) = Decoded-round b rest h (decode_rune-Decoded b rest) in
    let (out, e, printable, repaired) =
      encode_loop-Encodes fuel (drop size (b ∷ rest)) (omega (arith, length-drop size (b ∷ rest)))
        (All-drop IsByte size (b ∷ rest) h) in
    (
      encode_bytes size (encode_rune r) ++ out,
      rw e,
      All-append IsPrintable _ _ (encode_bytes-IsPrintable size (encode_rune r) bytes) printable,
      rw (encode_bytes_decodes size (encode_rune r) out bytes) (next refl refl repaired),
    )

-- A byte that is allowed is an ASCII byte other than the percent sign.
literal_lem :
    (msg : Bytes)
    → needs_encoding msg ≡ false
    → All IsPrintable msg × Repairs msg (percent_decode msg)
unfolding needs_encoding
literal_lem [] e = (tt, unfold percent_decode in done)
literal_lem (c ∷ cs) e =
    let (printable, repaired) = literal_lem cs (ground arith) in
    (
      (ground arith, printable),
      rw (percent_decode_literal c cs (ground arith)) (
          next {b = c} {rest = cs} {front = c ∷ []} {back = cs}
            (unfold encode_rune decode_rune in ground arith) (unfold decode_rune in ground arith)
            repaired),
    )

-- For every message of bytes `EncodeGrpcMessage` returns: its loop ends, what it writes is printable
-- ASCII, and percent decoding gives back the message with each byte that is not UTF-8 replaced by U+FFFD.
pub encode_grpc_message-Encodes :
    (msg : Bytes) → All IsByte msg → Encodes msg (encode_grpc_message msg)
unfolding encode_grpc_message
encode_grpc_message-Encodes [] h = ([], refl, tt, unfold percent_decode in done)
encode_grpc_message-Encodes (c ∷ cs) h = elim (Bool-cases (needs_encoding (c ∷ cs))) [
  | inl e ↦ rw e (encode_loop-Encodes (length (c ∷ cs)) (c ∷ cs) (omega arith) h)
  | inr e ↦
      let (printable, repaired) = literal_lem (c ∷ cs) e in rw e (c ∷ cs, refl, printable, repaired)
]
