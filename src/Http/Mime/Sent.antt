-- ===== src/Http/Mime/Sent.antt =====
-- A value as `(http.Header).Write` sends it is a value as `ReadMIMEHeader` reads it.
use go_grpc_http.Common.{ℕ, Bool, true, false, List, [], ◌∷◌, Bytes, ◌≡◌, refl, ap, ◌∙◌, arith, All}
use go_grpc_http.Http.{all_token, canonical_from}
use go_grpc_http.Http.Wire.{
  is_empty, is_ascii_space, trim_front, trim_back, keep_unless_blank, clean,
}
use go_grpc_http.Http.Mime.{
  starts_blank, trim_right, cons_unless_blank, is_value_byte, are_value_bytes,
}
use go_grpc_http.Http.Mime.Lines.{IsLine, and_parts}

-- A value as it is sent: without the blanks at its ends.
unfoldable pub sent : Bytes → Bytes
unfolding trim_front trim_back clean
sent v = trim_back (trim_front (clean v))

-- A field with a canonical key, and values that need no cleaning but at their ends.
pub record IsField (f : Bytes × List Bytes) : Type 0 where
  pub some_key : is_empty f.0 ≡ false
  pub token : all_token f.0 ≡ true
  pub canonical : canonical_from true f.0 ≡ f.0
  pub bytes : All (λ v. are_value_bytes v ≡ true) f.1

clean_lem : (v : Bytes) → are_value_bytes v ≡ true → clean v ≡ v
unfolding clean are_value_bytes
clean_lem [] h = refl
clean_lem (c ∷ v) h = ground (arith, clean_lem v)

front_bytes : (v : Bytes) → are_value_bytes v ≡ true → are_value_bytes (trim_front v) ≡ true
unfolding trim_front are_value_bytes
front_bytes [] h = refl
front_bytes (c ∷ v) h = ground (arith, front_bytes v)

kept_bytes :
    (c : ℕ) (v : Bytes)
    → is_value_byte c ≡ true
    → are_value_bytes v ≡ true
    → are_value_bytes (keep_unless_blank c v) ≡ true
unfolding are_value_bytes
kept_bytes c [] h k = ground arith
kept_bytes c (d ∷ v) h k = ground arith

back_bytes : (v : Bytes) → are_value_bytes v ≡ true → are_value_bytes (trim_back v) ≡ true
unfolding trim_back are_value_bytes
back_bytes [] h = refl
back_bytes (c ∷ v) h =
    let (b, bs) = and_parts (is_value_byte c) (are_value_bytes v) h in
    kept_bytes c (trim_back v) b (back_bytes v bs)

abbrev starts_space : Bytes → Bool
starts_space [] = false
starts_space (c ∷ v) = is_ascii_space c

front_spaceless : (v : Bytes) → starts_space (trim_front v) ≡ false
unfolding trim_front
front_spaceless [] = refl
front_spaceless (c ∷ v) = ground (arith, front_spaceless v)

keep_unblank :
    (c : ℕ) (v : Bytes) → is_ascii_space c ≡ false → starts_blank (keep_unless_blank c v) ≡ false
keep_unblank c [] h = ground arith
keep_unblank c (d ∷ v) h = ground arith

back_unblank : (v : Bytes) → starts_space v ≡ false → starts_blank (trim_back v) ≡ false
unfolding trim_back
back_unblank [] h = refl
back_unblank (c ∷ v) h = keep_unblank c (trim_back v) h

right_keep :
    (c : ℕ) (v : Bytes)
    → trim_right v ≡ v
    → trim_right (keep_unless_blank c v) ≡ keep_unless_blank c v
unfolding trim_right
right_keep c [] h = ground arith
right_keep c (d ∷ v) h = ap (cons_unless_blank c) h

trim_right-back : (v : Bytes) → trim_right (trim_back v) ≡ trim_back v
unfolding trim_back trim_right
trim_right-back [] = refl
trim_right-back (c ∷ v) = right_keep c (trim_back v) (trim_right-back v)

pub sent-IsLine :
    (k v : Bytes) (vs : List Bytes)
    → IsField (k, vs)
    → are_value_bytes v ≡ true
    → IsLine (k, sent v)
unfolding sent
sent-IsLine k v vs f h = record {
  some_key = f.some_key;
  token = f.token;
  canonical = f.canonical;
  value =
      back_bytes (trim_front (clean v))
        (front_bytes (clean v) (ap are_value_bytes (clean_lem v h) ∙ h));
  front = back_unblank (trim_front (clean v)) (front_spaceless (clean v));
  back = trim_right-back (trim_front (clean v));
}
