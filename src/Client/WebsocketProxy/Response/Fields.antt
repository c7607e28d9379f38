-- ===== src/Client/WebsocketProxy/Response/Fields.antt =====
-- What `setHeader` adds to the writer's header.
use go_grpc_http.Common.{
  Bool, true, false, none, some, List, [], ◌∷◌, ◌++◌, if◌then◌else◌, equal, equal_iff, Bytes, ◌≡◌,
  refl, sym, ap, ◌∙◌, arith, subst, All, append-nil, append_assoc, Bool-cases, inl, inr,
}
use go_grpc_http.Http.{Header, values, add, or_empty, all_token, is_token, canonical_header_key}
use go_grpc_http.Http.Laws.{values-add}
use go_grpc_http.Http.Mime.Sent.{IsField}
use go_grpc_http.Http.Mime.RoundTrip.{IsCanonical}
use go_grpc_http.Client.WebsocketProxy.Response.{add_values, response_key, add_header}
use go_grpc_http.Trailers.{trailer_prefix}

-- The values of a key that is in its canonical form.
add_values-values :
    (h : Header) (k : Bytes) (vs : List Bytes) (j : Bytes)
    → canonical_header_key k ≡ k
    → or_empty (values (add_values h k vs) j)
      ≡ or_empty (values h j) ++ (if equal k j then vs else [])
unfolding add_values
add_values-values h k [] j c = ground (arith, append-nil (or_empty (values h j)))
add_values-values h k (v ∷ vs) j c =
    add_values-values (add h k v) k vs j c
    ∙ ap (λ t. or_empty t ++ (if equal k j then vs else [])) (values-add h k v j)
    ∙ ap
        (λ i.
          or_empty (if equal i j then some (or_empty (values h i) ++ v ∷ []) else values h j)
          ++ (if equal k j then vs else []))
        c
    ∙ elim (Bool-cases (equal k j)) [
      | inl e ↦ rw e (
          append_assoc (or_empty (values h k)) (v ∷ []) vs
          ∙ ap (λ i. or_empty (values h i) ++ v ∷ vs) ((equal_iff k j).0 e))
      | inr e ↦ rw e refl
    ]

prefixed_canonical : (k : Bytes) → canonical_header_key (trailer_prefix ++ k) ≡ trailer_prefix ++ k
unfolding canonical_header_key all_token is_token
prefixed_canonical k = refl

response_key_canonical :
    (is_trailers : Bool) (k : Bytes)
    → canonical_header_key k ≡ k
    → canonical_header_key (response_key is_trailers k) ≡ response_key is_trailers k
response_key_canonical true k h = prefixed_canonical k
response_key_canonical false k h = h

equal-response_key :
    (is_trailers : Bool) (k j : Bytes)
    → equal (response_key is_trailers k) (response_key is_trailers j) ≡ equal k j
unfolding equal
equal-response_key true k j = refl
equal-response_key false k j = refl

-- A canonical header adds its values, to the key or to the one with the prefix of the trailers.
pub add_header-values :
    (is_trailers : Bool) (h hdr : Header) (j : Bytes)
    → IsCanonical hdr
    → or_empty (values (add_header is_trailers h hdr) (response_key is_trailers j))
      ≡ or_empty (values h (response_key is_trailers j)) ++ or_empty (values hdr j)
unfolding add_header values
add_header-values is_trailers h [] j c =
    sym (append-nil (or_empty (values h (response_key is_trailers j))))
add_header-values is_trailers h ((k, vs) ∷ hdr) j (u, a) =
    let key = response_key is_trailers j in
    add_header-values is_trailers (add_values h (response_key is_trailers k) vs) hdr j (u.1, a.1)
    ∙ ap (λ t. t ++ or_empty (values hdr j))
        (add_values-values h (response_key is_trailers k) vs key
          (response_key_canonical is_trailers k a.0))
    ∙ ap (λ b. (or_empty (values h key) ++ (if b then vs else [])) ++ or_empty (values hdr j))
        (equal-response_key is_trailers k j)
    ∙ elim (Bool-cases (equal k j)) [
      | inl e ↦
          rw (e, subst (λ i. values hdr i ≡ none) ((equal_iff k j).0 e) u.0)
            (append-nil (or_empty (values h key) ++ vs))
      | inr e ↦ rw e (ap (λ t. t ++ or_empty (values hdr j)) (append-nil (or_empty (values h key))))
    ]

equal_sym : (a b : Bytes) → equal a b ≡ equal b a
unfolding equal
equal_sym [] [] = refl
equal_sym [] (d ∷ ds) = refl
equal_sym (c ∷ cs) [] = refl
equal_sym (c ∷ cs) (d ∷ ds) = ground (arith, equal_sym cs ds)

token_apart : (k j : Bytes) → all_token j ≡ true → equal (trailer_prefix ++ k) j ≡ false
unfolding equal all_token is_token
token_apart k j h = elim (Bool-cases (equal (trailer_prefix ++ k) j)) [
  | inl e ↦ cc (ap all_token ((equal_iff (trailer_prefix ++ k) j).0 e), h)
  | inr e ↦ e
]

-- The trailers leave the fields as they are whose keys are tokens.
pub add_header-token :
    (h hdr : Header) (j : Bytes)
    → all_token j ≡ true
    → or_empty (values (add_header true h hdr) j) ≡ or_empty (values h j)
unfolding add_header
add_header-token h [] j t = refl
add_header-token h ((k, vs) ∷ hdr) j t =
    add_header-token (add_values h (trailer_prefix ++ k) vs) hdr j t
    ∙ add_values-values h (trailer_prefix ++ k) vs j (prefixed_canonical k)
    ∙ ap (λ b. or_empty (values h j) ++ (if b then vs else [])) (token_apart k j t)
    ∙ append-nil (or_empty (values h j))

-- No field with a token as its key has the prefix.
pub prefixed_None : (h : Header) (j : Bytes) → All IsField h → values h (trailer_prefix ++ j) ≡ none
unfolding values
prefixed_None [] j fs = refl
prefixed_None ((k, vs) ∷ h) j fs =
    rw (equal_sym k (trailer_prefix ++ j), token_apart j k fs.0.token) (prefixed_None h j fs.1)
