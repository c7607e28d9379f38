-- ===== src/Grpcweb/Consume/Automaton.antt =====
-- An automaton that reads a gRPC-Web response one byte at a time, as the specification of `consume`.
use go_grpc_http.Common.{
  Option-cases, inl, inr, ℕ, zero, suc, ◌+◌, ◌-◌, ◌≤◌, ◌<◌, false, ◌&&◌, Option, none, some, [],
  ◌∷◌, ◌++◌, ltb, leb, ◌==◌, if◌then◌else◌, length, take, drop, Bytes, arith, ◌≡◌, append_assoc,
  append-nil, length-append,
}
use go_grpc_http.Grpcweb.Consume.{Cursor, header_appended}

-- One byte more: of the current message, of a header, or `none` where a trailer frame begins.
unfoldable pub advance : Cursor → ℕ → Option Cursor
advance c b =
    if ltb 0 c.curr_message_remaining
    then some (record c { curr_message_remaining = c.curr_message_remaining - 1 })
    else if length c.curr_partial_msg_header == 0 && leb 128 b
    then none
    else some (
        header_appended
          (record c { curr_partial_msg_header = c.curr_partial_msg_header ++ b ∷ [] }))

-- Bytes are taken up to the first trailer frame.
unfoldable pub scan : Cursor → Bytes → Cursor × ℕ
scan c [] = (c, 0)
scan c (b ∷ bs) = elim (advance c b) [
  | none ↦ (c, 0)
  | some c' ↦ let (d, n) = scan c' bs in (d, suc n)
]

-- A partial header is shorter than a whole one, and belongs to no message.
pub record IsCursor (c : Cursor) : Type 0 where
  pub partial : length c.curr_partial_msg_header < 5
  pub between : 0 < c.curr_message_remaining → c.curr_partial_msg_header ≡ []

-- A part of the current message that is there.
pub scan_message :
    (k : ℕ) (c : Cursor) (buf : Bytes)
    → k ≤ c.curr_message_remaining
    → k ≤ length buf
    → scan c buf ≡ (
        let s =
          scan (record c { curr_message_remaining = c.curr_message_remaining - k }) (drop k buf) in
        (s.0, k + s.1))
unfolding scan advance
scan_message zero c buf h l = ground arith
scan_message (suc k) c [] h l = absurd (omega arith)
scan_message (suc k) c (b ∷ bs) h l =
    ground (
      arith,
      scan_message k (record c { curr_message_remaining = c.curr_message_remaining - 1 }) bs,
    )

abbrev pub append_header : Cursor → Bytes → Cursor
append_header c bs = record c { curr_partial_msg_header = c.curr_partial_msg_header ++ bs }

pub header_appended_partial :
    (c : Cursor) → length c.curr_partial_msg_header < 5 → header_appended c ≡ c
unfolding header_appended
header_appended_partial c h = ground arith

-- One byte of a header.
pub scan_step :
    (c : Cursor) (b : ℕ) (bs : Bytes)
    → c.curr_message_remaining ≡ 0
    → (length c.curr_partial_msg_header == 0 && leb 128 b) ≡ false
    → scan c (b ∷ bs)
      ≡ (let s = scan (header_appended (append_header c (b ∷ []))) bs in (s.0, suc s.1))
unfolding scan advance
scan_step c b bs r t = ground arith

-- A part of a header that has begun.
pub scan_header :
    (k : ℕ) (c : Cursor) (buf : Bytes)
    → c.curr_message_remaining ≡ 0
    → 0 < length c.curr_partial_msg_header
    → length c.curr_partial_msg_header < 5
    → k + length c.curr_partial_msg_header ≤ 5
    → k ≤ length buf
    → scan c buf ≡ (
        let s = scan (header_appended (append_header c (take k buf))) (drop k buf) in
        (s.0, k + s.1))
scan_header zero c buf r h f w l =
    rw (append-nil c.curr_partial_msg_header) (rw (header_appended_partial c f) (ground arith))
scan_header (suc k) c [] r h f w l = absurd (omega arith)
scan_header (suc zero) c (b ∷ bs) r h f w l = ground (arith, scan_step c b bs)
scan_header (suc (suc k)) c (b ∷ bs) r h f w l = ground (
  arith,
  scan_step c b bs,
  header_appended_partial (append_header c (b ∷ [])),
  length-append c.curr_partial_msg_header (b ∷ []),
  append_assoc c.curr_partial_msg_header (b ∷ []) (take (suc k) bs),
  scan_header (suc k) (append_header c (b ∷ [])) bs,
)

-- A part of a header, from its first byte on, that begins no trailer frame.
pub scan_begin :
    (k : ℕ) (c : Cursor) (b : ℕ) (bs : Bytes)
    → c.curr_message_remaining ≡ 0
    → (length c.curr_partial_msg_header == 0 && leb 128 b) ≡ false
    → suc k + length c.curr_partial_msg_header ≤ 5
    → k ≤ length bs
    → scan c (b ∷ bs) ≡ (
        let s = scan (header_appended (append_header c (b ∷ take k bs))) (drop k bs) in
        (s.0, suc k + s.1))
scan_begin zero c b bs r t w l = ground (arith, scan_step c b bs)
scan_begin (suc k) c b bs r t w l = ground (
  arith,
  scan_step c b bs,
  header_appended_partial (append_header c (b ∷ [])),
  length-append c.curr_partial_msg_header (b ∷ []),
  append_assoc c.curr_partial_msg_header (b ∷ []) (take (suc k) bs),
  scan_header (suc k) (append_header c (b ∷ [])) bs,
)

pub scan-le : (xs : Bytes) (c : Cursor) → (scan c xs).1 ≤ length xs
unfolding scan
scan-le [] c = omega arith
scan-le (x ∷ xs) c = elim (Option-cases (advance c x)) [
  | inl stop ↦ rw (stop, scan) (omega arith)
  | inr (d, go) ↦ rw (go, scan) (omega (arith, scan-le xs d))
]
