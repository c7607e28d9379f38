-- ===== src/Grpcweb/Consume/Bytewise.antt =====
-- `consume` against the automaton that reads one byte at a time.
use go_grpc_http.Common.{
  ℕ, zero, suc, ◌+◌, ◌-◌, ◌≤◌, ◌<◌, Bool, true, false, not, ◌&&◌, Option, none, some, [], ◌∷◌, ◌++◌,
  ltb, leb, ◌==◌, if◌then◌else◌, length, take, drop, bit_and, Bytes, arith, ◌≡◌, ◌≢◌, refl, ap, ◌∙◌,
  All, All-drop, All-append, subst, Option-cases, Bool-cases, inl, inr, length-append, length-take,
  length-drop, drop_all,
}
use mathlib.Core.Option
use go_grpc_http.Common.Bits.{top_bit}
use go_grpc_http.Proto.{IsByte}
use go_grpc_http.Grpcweb.Consume.{
  Cursor, at_most, header_appended, read_header, consume_loop, consume,
}
use go_grpc_http.Grpcweb.Consume.Automaton.{advance, scan, IsCursor, scan_message, scan_begin}

-- What the second half of a round does, in terms of `scan`.
data HeaderRead (c : Cursor) (rest : Bytes) : Option (Cursor × ℕ × Bytes) → Type 0 where
  stopped : scan c rest ≡ (c, 0) → HeaderRead c rest none
  taken :
      (d : Cursor) (k : ℕ) (left : Bytes)
      → IsCursor d
      → length left < length rest
      → All IsByte left
      → scan c rest ≡ (let s = scan d left in (s.0, k + s.1))
      → HeaderRead c rest (some (d, k, left))

header_appended-IsCursor :
    (c : Cursor)
    → c.curr_message_remaining ≡ 0
    → length c.curr_partial_msg_header ≤ 5
    → IsCursor (header_appended c)
unfolding header_appended
header_appended-IsCursor c r h = ground arith

flag_test : (b : ℕ) → IsByte b → not (bit_and b 128 == 0) ≡ leb 128 b
flag_test b h = ground (arith, top_bit b)

read_header-HeaderRead :
    (c : Cursor) (rest : Bytes)
    → length c.curr_partial_msg_header < 5
    → (rest ≢ [] → c.curr_message_remaining ≡ 0)
    → All IsByte rest
    → HeaderRead c rest (read_header c rest)
unfolding read_header
read_header-HeaderRead c [] h r k = stopped (unfold scan in refl)
read_header-HeaderRead c (b ∷ bs) h r (hb, hs) =
    let zero_left : c.curr_message_remaining ≡ 0 = r (λ e. cc) in
    let k = at_most (5 - length c.curr_partial_msg_header) (length (b ∷ bs)) in
    let k_suc : k ≡ suc (k - 1) = ground arith in
    elim (Bool-cases (length c.curr_partial_msg_header == 0 && leb 128 b)) [
      | inl t ↦
          rw (flag_test b hb) (rw t (stopped (unfold scan advance in ground (arith, zero_left))))
      | inr t ↦ rw (flag_test b hb) (
          rw t (
            rw k_suc (
              taken _ (suc (k - 1)) (drop (k - 1) bs)
                (header_appended-IsCursor _ zero_left (
                  ground (
                    arith,
                    length-append c.curr_partial_msg_header (b ∷ take (k - 1) bs),
                    length-take (k - 1) bs,
                  )))
                (ground (arith, length-drop (k - 1) bs)) (All-drop IsByte (k - 1) bs hs)
                (scan_begin (k - 1) c b bs zero_left t (ground arith) (ground arith)))))
    ]

-- A buffer that goes on behind the current message ends that message.
message_done :
    (n : ℕ) (buf : Bytes) → drop (at_most n (length buf)) buf ≢ [] → n - at_most n (length buf) ≡ 0
message_done n buf h = elim (Bool-cases (ltb (length buf) n)) [
  | inl more ↦ absurd (h (rw more (drop_all (length buf) buf (omega arith))))
  | inr less ↦ ground arith
]

-- What a round leaves to the next one.
round_scan :
    (fuel : ℕ) (c : Cursor) (rest : Bytes) (m : ℕ) {o : Option (Cursor × ℕ × Bytes)}
    → HeaderRead c rest o
    → length rest ≤ suc fuel
    → ((d : Cursor) (left : Bytes) (n : ℕ)
        → IsCursor d
        → length left ≤ fuel
        → All IsByte left
        → consume_loop fuel d left n ≡ some ((scan d left).0, n + (scan d left).1))
    → ◌≡◌ {A = Option (Cursor × ℕ)}
        (elim o [ none ↦ some (c, m) | some (d, j, left) ↦ consume_loop fuel d left (m + j) ])
        (some ((scan c rest).0, m + (scan c rest).1))
round_scan fuel c rest m (stopped e) h ih = rw e (ground arith)
round_scan fuel c rest m (taken d k left v lt bytes e) h ih =
    rw e (rw (ih d left (m + k) v (omega arith) bytes) (ground arith))

consume_loop-scan :
    (fuel : ℕ) (c : Cursor) (buf : Bytes) (n : ℕ)
    → IsCursor c
    → length buf ≤ fuel
    → All IsByte buf
    → consume_loop fuel c buf n ≡ some ((scan c buf).0, n + (scan c buf).1)
unfolding consume_loop
consume_loop-scan fuel c [] n v h bytes = unfold scan in ground arith
consume_loop-scan zero c (b ∷ bs) n v h bytes = absurd (omega arith)
consume_loop-scan (suc fuel) c (b ∷ bs) n v h bytes =
    let k = at_most c.curr_message_remaining (length (b ∷ bs)) in
    let c' = record c { curr_message_remaining = c.curr_message_remaining - k } in
    let rest = drop k (b ∷ bs) in
    let read =
      read_header-HeaderRead c' rest v.partial (message_done c.curr_message_remaining (b ∷ bs))
        (All-drop IsByte k (b ∷ bs) bytes) in
    round_scan fuel c' rest (n + k) read (omega (arith, length-drop k (b ∷ bs)))
      (λ d left m v' h' bytes'. consume_loop-scan fuel d left m v' h' bytes')
    ∙ rw (scan_message k c (b ∷ bs) (ground arith) (ground arith)) (ground arith)

advance-IsCursor :
    (c : Cursor) (b : ℕ) {d : Cursor} → IsCursor c → advance c b ≡ some d → IsCursor d
unfolding advance header_appended
advance-IsCursor c b v e =
    ground (arith, length-append c.curr_partial_msg_header (b ∷ []), v.between)

pub scan-IsCursor : (buf : Bytes) (c : Cursor) → IsCursor c → IsCursor (scan c buf).0
unfolding scan
scan-IsCursor [] c v = v
scan-IsCursor (b ∷ bs) c v = elim (Option-cases (advance c b)) [
  | inl stop ↦ rw (stop, scan) v
  | inr (d, go) ↦ rw (go, scan) (scan-IsCursor bs d (advance-IsCursor c b v go))
]

-- From a cursor whose partial header is shorter than a header and empty inside a message, `consume`
-- ends on every buffer of bytes, takes exactly what the automaton takes byte by byte, and leaves such
-- a cursor.
pub consume-scan :
    (c : Cursor) (buf : Bytes)
    → IsCursor c
    → All IsByte buf
    → (consume c buf ≡ some (scan c buf)) × IsCursor (scan c buf).0
unfolding consume
consume-scan c buf v h =
    (consume_loop-scan (length buf) c buf 0 v (omega arith) h ∙ ground arith, scan-IsCursor buf c v)

pub scan-append :
    (c : Cursor) (xs ys : Bytes)
    → scan c (xs ++ ys) ≡ (
        let s = scan c xs in
        let t = scan s.0 ys in if s.1 == length xs then (t.0, s.1 + t.1) else s)
unfolding scan
scan-append c [] ys = ground arith
scan-append c (x ∷ xs) ys = elim (Option-cases (advance c x)) [
  | inl stop ↦ ground arith
  | inr (d, go) ↦ ground (arith, scan-append d xs ys)
]

some-if : (b : Bool) (s t : Cursor × ℕ) → some (if b then s else t) ≡ (if b then some s else some t)
some-if true s t = refl
some-if false s t = refl

-- From a cursor whose partial header is shorter than a header and empty inside a message, bytes that
-- arrive in two parts are consumed as in one: where the first part is taken whole the second goes on
-- behind it, and otherwise a trailer frame began in the first part.
pub consume-append :
    (c : Cursor) (xs ys : Bytes) {d : Cursor} {n : ℕ}
    → IsCursor c
    → All IsByte xs
    → All IsByte ys
    → consume c xs ≡ some (d, n)
    → consume c (xs ++ ys)
      ≡ (if n == length xs then Option.map (λ s. (s.0, n + s.1)) (consume d ys) else some (d, n))
consume-append c xs ys {d} {n} v hx hy e =
    let (first, v') = consume-scan c xs v hx in
    let whole = (consume-scan c (xs ++ ys) v (All-append IsByte xs ys hx hy)).0 in
    let same : (scan c xs) ≡ (d, n) = cc (first, e) in
    let second = (consume-scan d ys (subst (λ s. IsCursor s.0) same v') hy).0 in
    whole ∙ ap some (scan-append c xs ys) ∙ rw same (rw second (some-if (n == length xs) _ _))
