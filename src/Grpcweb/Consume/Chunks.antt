-- ===== src/Grpcweb/Consume/Chunks.antt =====
-- What the automaton does with a part of a response, from what it does with all of it.
use go_grpc_http.Common.{
  ℕ, ◌+◌, ◌<◌, ◌≤◌, ◌==◌, true, false, Bytes, ◌++◌, length, take, drop, ◌≡◌, refl, sym, ap, ◌∙◌,
  ◌⊎◌, inl, inr, arith, Bool-cases, ==_iff, if◌then◌else◌, length-drop, take-append-drop,
  take-append_length, take-append_less, drop-append_length, drop-append_less,
}
use go_grpc_http.Grpcweb.Consume.{Cursor, start}
use go_grpc_http.Grpcweb.Consume.Automaton.{scan, scan-le}
use go_grpc_http.Grpcweb.Consume.Bytewise.{scan-append}

module _ (c0 : Cursor) (c more out last : Bytes) where
  abbrev in_two : Cursor × ℕ
  in_two = let t = scan (scan c0 c).0 more in (t.0, (scan c0 c).1 + t.1)

  scan-in_two : scan c0 (c ++ more) ≡ (if (scan c0 c).1 == length c then in_two else scan c0 c)
  scan-in_two = scan-append c0 c more

  scan_whole :
      scan c0 (c ++ more) ≡ (start, length out)
      → ((scan c0 c).1 == length c) ≡ true
      → (length c ≤ length out) × (scan (scan c0 c).0 more ≡ (start, length (drop (length c) out)))
  scan_whole scanned whole =
      let same : (scan c0 c).1 ≡ length c = (==_iff (scan c0 c).1 (length c)).0 whole in
      let both : in_two ≡ (start, length out) =
        sym (scan-in_two ∙ ap (λ b. if b then in_two else scan c0 c) whole) ∙ scanned in
      let first : (scan (scan c0 c).0 more).0 ≡ start = ap (λ s. s.0) both in
      let count : (scan c0 c).1 + (scan (scan c0 c).0 more).1 ≡ length out = ap (λ s. s.1) both in
      let left : (scan (scan c0 c).0 more).1 ≡ length (drop (length c) out) =
        omega (arith, length-drop (length c) out) in
      (omega arith, cc (first, left))

  -- A part is taken whole, and the rest is taken from there; or the response's last part begins in it.
  pub scan_cases :
      c ++ more ≡ out ++ last
      → scan c0 (c ++ more) ≡ (start, length out)
      → ((d : Cursor) × (back : Bytes) × (scan c0 c ≡ (d, length c))
          × (out ≡ c ++ back)
          × (more ≡ back ++ last)
          × (scan d more ≡ (start, length back)))
        ⊎ ((scan c0 c ≡ (start, length out)) × (length out < length c))
  scan_cases e scanned = elim (Bool-cases ((scan c0 c).1 == length c)) [
    | inl whole ↦
        let same : (scan c0 c).1 ≡ length c = (==_iff (scan c0 c).1 (length c)).0 whole in
        let (le, rest) = scan_whole scanned whole in
        let n = length c in
        let front : c ≡ take n out =
          sym (take-append_length n c more refl) ∙ ap (take n) e ∙ take-append_less n out last le in
        inl (
          (scan c0 c).0,
          drop n out,
          cc same,
          sym (take-append-drop n out) ∙ ap (λ q. q ++ drop n out) (sym front),
          sym (drop-append_length n c more refl) ∙ ap (drop n) e ∙ drop-append_less n out last le,
          rest,
        )
    | inr cut ↦
        let s : scan c0 c ≡ (start, length out) =
          sym (scan-in_two ∙ ap (λ b. if b then in_two else scan c0 c) cut) ∙ scanned in
        inr (s, shorter (ap (λ t. t.1) s) cut)
  ]
    where
      shorter :
          (scan c0 c).1 ≡ length out → ((scan c0 c).1 == length c) ≡ false → length out < length c
      shorter n other = ground (arith, scan-le c c0)
