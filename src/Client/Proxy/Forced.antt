-- ===== src/Client/Proxy/Forced.antt =====
-- A client with `ForceDowngrade`, against the server's handler.
use go_grpc_http.Common.{
  Bool, true, false, some, List, [], ◌∷◌, ◌++◌, equal, Bytes, codes, ◌≡◌, ◌≢◌, refl, sym, ap, ◌∙◌,
  inl, inr, arith,
}
use go_grpc_http.Http.{Header, values, get, add, del, or_empty, canonical_header_key, Request}
use go_grpc_http.Http.Laws.{values-set, values-add, values-del}
use go_grpc_http.Strings.{find, fields_func, join, is_space}
use go_grpc_http.Utf8.{decode_rune}
use go_grpc_http.Server.Handler.{
  ServerOption, MethodInfo, apply_all, default_options, valid_paths, serve_grpc, serve_grpc_web,
  accepts_grpc_web, accepted_content_types, grpc_web_only, is_content_type_valid,
  is_websocket_upgrade, no_upgrade, create_downgrading_handler,
}
use go_grpc_http.Server.Handler.Routing.{Downgradable, handle_grpc_web-Native}
use go_grpc_http.Server.Handler.Clients.{as_grpc, handle_grpc, set-grpc_web_only, web_client_served}
use go_grpc_http.Client.Proxy.{accept_header, direct_header, direct}

-- A content type changes no other field.
direct_values :
    (content_type : Bytes) (h : Header) (j : Bytes)
    → equal (codes "Content-Type") j ≡ false
    → values (direct_header true content_type h) j ≡ values (accept_header true h) j
unfolding direct_header canonical_header_key
direct_values [] h j e = refl
direct_values (c ∷ cs) h j e =
    values-set (accept_header true h) (codes "Content-Type") (c ∷ cs) j ∙ rw e

-- The header without what a downgraded client does not send.
abbrev stripped : Header → Header
stripped h = del (del h (codes "TE")) (codes "Accept")

abbrev marked : Header → Header
marked h = add (stripped h) (codes "Grpc-Web-Only") (codes "true")

forced_accept :
    (h : Header)
    → values (accept_header true h) (codes "Accept") ≡ some (codes "application/grpc-web" ∷ [])
unfolding accept_header canonical_header_key equal
forced_accept h =
    values-add (marked h) (codes "Accept") (codes "application/grpc-web") (codes "Accept")
    ∙ ap (λ o. some (or_empty o ++ codes "application/grpc-web" ∷ []))
        (values-add (stripped h) (codes "Grpc-Web-Only") (codes "true") (codes "Accept")
          ∙ values-del (del h (codes "TE")) (codes "Accept") (codes "Accept"))

forced_only :
    (h : Header)
    → (vs : List Bytes) × (values (accept_header true h) (codes "Grpc-Web-Only")
        ≡ some (vs ++ codes "true" ∷ []))
unfolding accept_header canonical_header_key equal
forced_only h = (
  or_empty (values (stripped h) (codes "Grpc-Web-Only")),
  values-add (marked h) (codes "Accept") (codes "application/grpc-web") (codes "Grpc-Web-Only")
      ∙ values-add (stripped h) (codes "Grpc-Web-Only") (codes "true") (codes "Grpc-Web-Only"),
)

-- What the server's conditions read of it.
marked_only :
    (h : Header) (vs : List Bytes) (w : Bytes)
    → values h (codes "Grpc-Web-Only") ≡ some (vs ++ w ∷ [])
    → grpc_web_only h ≡ true
unfolding grpc_web_only
marked_only h [] w e = ground arith
marked_only h (v ∷ vs) w e = ground arith

direct-grpc_web_only :
    (content_type : Bytes) (h : Header) → grpc_web_only (direct_header true content_type h) ≡ true
direct-grpc_web_only content_type h =
    let (vs, e) = forced_only h in
    marked_only (direct_header true content_type h) vs (codes "true")
      (direct_values content_type h (codes "Grpc-Web-Only") (unfold equal in refl) ∙ e)

direct-accepts_grpc_web :
    (content_type : Bytes) (h : Header)
    → accepts_grpc_web (direct_header true content_type h) ≡ true
unfolding accepts_grpc_web accepted_content_types
direct-accepts_grpc_web content_type h =
    rw (direct_values content_type h (codes "Accept") (unfold equal in refl), forced_accept h)
      (unfold fields_func join find decode_rune is_space equal in refl)

-- The server answers no request of such a client with a native response.
never_native :
    (services : List (Bytes × List MethodInfo)) (opts : List ServerOption) (req : Request)
    {r : Request}
    → is_websocket_upgrade req.header ≡ no_upgrade
    → is_content_type_valid (get req.header (codes "Content-Type")) ≡ true
    → grpc_web_only req.header ≡ true
    → create_downgrading_handler services opts req ≢ serve_grpc r
unfolding create_downgrading_handler
never_native services opts req u c o e =
    let native =
      handle_grpc_web-Native (valid_paths services) (apply_all default_options opts) (as_grpc req)
        (sym (handle_grpc (valid_paths services) (apply_all default_options opts) req u c) ∙ e) in
    cc (native.not_web_only, set-grpc_web_only req.header (codes "application/grpc"), o)

-- A request that the client's `Director` forces down is answered as gRPC-Web on every method without
-- client streaming, whatever the services and options of the server: if its content type is that of
-- gRPC or gRPC-Web, and it is no WebSocket upgrade.
pub forced_client_served :
    (services : List (Bytes × List MethodInfo)) (opts : List ServerOption) (insecure : Bool)
    (endpoint content_type : Bytes) (req : Request)
    → let sent = direct insecure true endpoint content_type req in
      is_websocket_upgrade sent.header ≡ no_upgrade
      → is_content_type_valid (get sent.header (codes "Content-Type")) ≡ true
      → Downgradable req.path services
      → (r : Request) × (create_downgrading_handler services opts sent ≡ serve_grpc_web r)
unfolding direct
forced_client_served services opts insecure endpoint content_type req u c d =
    let sent = direct insecure true endpoint content_type req in
    let (r, served) =
      web_client_served services opts sent u c d
        (direct-accepts_grpc_web content_type req.header) in
    elim served [
      | inl native ↦ absurd (
          never_native services opts sent u c (direct-grpc_web_only content_type req.header) native)
      | inr web ↦ (r, web)
    ]
