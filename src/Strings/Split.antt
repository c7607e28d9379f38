-- ===== src/Strings/Split.antt =====
-- What `Split2` and `Find` return.
use go_grpc_http.Common.{
  ℕ, suc, ◌+◌, ◌≤◌, true, false, Option, none, some, [], ◌∷◌, ◌++◌, length, take, drop, Bytes, ◌≡◌,
  ◌≢◌, refl, sym, ap, ◌∙◌, inl, inr, arith, Bool-cases, take-append_length, drop-append_length,
  length-append, append_assoc,
}
use mathlib.Core.Option
use mathlib.Core.Bool.{false≢true}
use go_grpc_http.Strings.{has_prefix, index, split2}

has_prefix-eq : (s p : Bytes) → has_prefix s p ≡ true → (back : Bytes) × (s ≡ p ++ back)
unfolding has_prefix
has_prefix-eq s [] h = (s, refl)
has_prefix-eq [] (p ∷ ps) h = cc
has_prefix-eq (c ∷ cs) (p ∷ ps) h =
    let (back, e) = has_prefix-eq cs ps (ground arith) in (back, ground arith)

has_prefix-append : (p back : Bytes) → has_prefix (p ++ back) p ≡ true
unfolding has_prefix
has_prefix-append [] [] = refl
has_prefix-append [] (b ∷ bs) = refl
has_prefix-append (p ∷ ps) back = ground (arith, has_prefix-append ps back)

-- A text that begins with `sep` where the test says that it does not.
no_prefix : (s sep back : Bytes) → has_prefix s sep ≡ false → s ≢ sep ++ back
no_prefix s sep back h e =
    false≢true (sym h ∙ ap (λ x. has_prefix x sep) e ∙ has_prefix-append sep back)

data Indexed (str sep : Bytes) : Option ℕ → Type 0 where
  first_at :
      (front back : Bytes)
      → str ≡ front ++ (sep ++ back)
      → ((f b : Bytes) → str ≡ f ++ (sep ++ b) → length front ≤ length f)
      → Indexed str sep (some (length front))
  nowhere : ((f b : Bytes) → str ≢ f ++ (sep ++ b)) → Indexed str sep none

Indexed-cons :
    (c : ℕ) (cs sep : Bytes) {o : Option ℕ}
    → has_prefix (c ∷ cs) sep ≡ false
    → Indexed cs sep o
    → Indexed (c ∷ cs) sep (Option.map suc o)
Indexed-cons c cs sep h (first_at front back e least) =
    first_at (c ∷ front) back (ap (◌∷◌ c) e) later
  where
    later : (f b : Bytes) → c ∷ cs ≡ f ++ (sep ++ b) → suc (length front) ≤ length f
    later [] b p = absurd (no_prefix (c ∷ cs) sep b h p)
    later (x ∷ f) b p = omega (arith, least f b (cc))
Indexed-cons c cs sep h (nowhere never) = nowhere later
  where
    later : (f b : Bytes) → c ∷ cs ≢ f ++ (sep ++ b)
    later [] b p = no_prefix (c ∷ cs) sep b h p
    later (x ∷ f) b p = never f b (cc)

index-Indexed : (str sep : Bytes) → Indexed str sep (index str sep)
unfolding index
index-Indexed [] sep = elim (Bool-cases (has_prefix [] sep)) [
  | inl h ↦
      let (back, e) = has_prefix-eq [] sep h in rw h (first_at [] back e (λ f b p. omega arith))
  | inr h ↦ rw h (nowhere (never h))
]
  where
    never : has_prefix [] sep ≡ false → (f b : Bytes) → [] ≢ f ++ (sep ++ b)
    never h [] b p = no_prefix [] sep b h p
    never h (x ∷ f) b p = cc
index-Indexed (c ∷ cs) sep = elim (Bool-cases (has_prefix (c ∷ cs) sep)) [
  | inl h ↦
      let (back, e) = has_prefix-eq (c ∷ cs) sep h in
      rw h (first_at [] back e (λ f b p. omega arith))
  | inr h ↦ rw h (Indexed-cons c cs sep h (index-Indexed cs sep))
]

-- The parts of a text at the first separator, or the whole text where there is none.
pub data SplitsAt (str sep : Bytes) : Bytes × Bytes → Type 0 where
  at_first :
      (front back : Bytes)
      → str ≡ front ++ (sep ++ back)
      → ((f b : Bytes) → str ≡ f ++ (sep ++ b) → length front ≤ length f)
      → SplitsAt str sep (front, back)
  whole : ((f b : Bytes) → str ≢ f ++ (sep ++ b)) → SplitsAt str sep (str, [])

-- `Split2` cuts at the first occurrence of the separator, and returns the whole text and an empty one
-- where the separator does not occur.
pub split2-SplitsAt : (str sep : Bytes) → SplitsAt str sep (split2 str sep)
unfolding split2
split2-SplitsAt str sep = cut (index-Indexed str sep)
  where
    cut :
        {o : Option ℕ}
        → Indexed str sep o
        → SplitsAt str sep
            (elim o [ none ↦ (str, []) | some i ↦ (take i str, drop (i + length sep) str) ])
    cut (first_at front back e least) =
        let left : take (length front) str ≡ front =
          ap (take (length front)) e ∙ take-append_length (length front) front (sep ++ back) refl in
        let right : drop (length front + length sep) str ≡ back =
          ap (drop (length front + length sep)) (e ∙ sym (append_assoc front sep back))
          ∙ drop-append_length (length front + length sep) (front ++ sep) back
              (sym (length-append front sep)) in
        rw (left, right) (at_first front back e least)
    cut (nowhere never) = whole never
