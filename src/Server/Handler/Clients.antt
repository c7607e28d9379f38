-- ===== src/Server/Handler/Clients.antt =====
-- What the clients of the README's table get.
use go_grpc_http.Common.{
  Bool, true, false, not, ◌&&◌, List, [], ◌∷◌, equal, Bytes, codes, ◌≡◌, refl, sym, ◌∙◌, ◌⊎◌, inl,
  inr, arith, Bool-cases,
}
use go_grpc_http.Http.{Header, values, get, set, canonical_header_key, Request}
use go_grpc_http.Http.Laws.{values-store}
use go_grpc_http.Strings.{find, found}
use go_grpc_http.Server.Handler.{
  Options, ServerOption, apply_all, default_options, MethodInfo, valid_paths, serve_grpc,
  serve_grpc_web, accepted_content_types, accepts_grpc_web, names_grpc, accepts_trailers,
  grpc_web_only, as_http2, is_http2, respond, handle_grpc_web, is_content_type_valid,
  is_websocket_upgrade, no_upgrade, handle, create_downgrading_handler,
}
use go_grpc_http.Server.Handler.Routing.{Downgradable, valid_paths_iff}

-- The content type that the gRPC server wants to see.
abbrev pub as_grpc : Request → Request
as_grpc req = record req {
  header = set req.header (codes "Content-Type") (codes "application/grpc");
}

values-set_content_type :
    (h : Header) (v j : Bytes)
    → equal (codes "Content-Type") j ≡ false
    → values (set h (codes "Content-Type") v) j ≡ values h j
unfolding set canonical_header_key
values-set_content_type h v j e = values-store h (codes "Content-Type") j (v ∷ []) ∙ rw e

-- The content type is no field that the routing reads.
set-accepts_grpc_web :
    (h : Header) (v : Bytes)
    → accepts_grpc_web (set h (codes "Content-Type") v) ≡ accepts_grpc_web h
unfolding accepts_grpc_web accepted_content_types
set-accepts_grpc_web h v = rw (values-set_content_type h v (codes "Accept") (unfold equal in refl))

pub set-grpc_web_only :
    (h : Header) (v : Bytes) → grpc_web_only (set h (codes "Content-Type") v) ≡ grpc_web_only h
unfolding grpc_web_only
set-grpc_web_only h v =
    rw (values-set_content_type h v (codes "Grpc-Web-Only") (unfold equal in refl), grpc_web_only)

set-accepts_trailers :
    (h : Header) (v : Bytes)
    → accepts_trailers (set h (codes "Content-Type") v) ≡ accepts_trailers h
unfolding accepts_trailers get canonical_header_key
set-accepts_trailers h v = rw (values-set_content_type h v (codes "Te") (unfold equal in refl))

-- A gRPC request that is no WebSocket upgrade goes to `handleGRPCWeb`.
pub handle_grpc :
    (paths : List Bytes) (opts : Options) (req : Request)
    → is_websocket_upgrade req.header ≡ no_upgrade
    → is_content_type_valid (get req.header (codes "Content-Type")) ≡ true
    → handle paths opts req ≡ handle_grpc_web paths opts (as_grpc req)
unfolding handle
handle_grpc paths opts req u c = ground arith

-- A plain gRPC client (content type of gRPC or gRPC-Web, no WebSocket, HTTP/2, `TE: trailers`, no
-- gRPC-Web among the accepted types, no `Grpc-Web-Only`) always gets a native response, whatever the
-- server's services and options.
pub plain_client_served :
    (services : List (Bytes × List MethodInfo)) (opts : List ServerOption) (req : Request)
    → is_websocket_upgrade req.header ≡ no_upgrade
    → is_content_type_valid (get req.header (codes "Content-Type")) ≡ true
    → is_http2 req ≡ true
    → accepts_trailers req.header ≡ true
    → accepts_grpc_web req.header ≡ false
    → grpc_web_only req.header ≡ false
    → create_downgrading_handler services opts req ≡ serve_grpc (as_grpc req)
unfolding create_downgrading_handler
plain_client_served services opts req u c h t w o =
    handle_grpc (valid_paths services) (apply_all default_options opts) req u c
    ∙ unfold handle_grpc_web respond in
      ground (
        arith,
        set-accepts_grpc_web req.header (codes "application/grpc"),
        set-grpc_web_only req.header (codes "application/grpc"),
        set-accepts_trailers req.header (codes "application/grpc"),
      )

-- What `handleGRPCWeb` sends as gRPC-Web.
web_response :
    (paths : List Bytes) (opts : Options) (req : Request) {r : Request}
    → handle_grpc_web paths opts req ≡ serve_grpc_web r
    → (found (find paths req.path) ≡ true)
      × (accepts_grpc_web req.header ≡ true)
      × (r.proto_major ≡ 2)
      × (r.header ≡ set req.header (codes "TE") (codes "trailers"))
unfolding handle_grpc_web
web_response paths opts req e = ground arith

handle_web :
    (paths : List Bytes) (opts : Options) (req : Request) {r : Request}
    → handle paths opts req ≡ serve_grpc_web r
    → (is_websocket_upgrade req.header ≡ no_upgrade)
      × (is_content_type_valid (get req.header (codes "Content-Type")) ≡ true)
      × (handle_grpc_web paths opts (as_grpc req) ≡ serve_grpc_web r)
unfolding handle
handle_web paths opts req e = ground arith

te_set : (h : Header) → accepts_trailers (set h (codes "TE") (codes "trailers")) ≡ true
unfolding accepts_trailers get set canonical_header_key
te_set h =
    rw (values-store h (codes "Te") (codes "Te") (codes "trailers" ∷ [])) (unfold equal in refl)

respond_served :
    (prefer_web : Bool) (req : Request)
    → accepts_grpc_web req.header ≡ true
    → (r : Request) × ((respond prefer_web true req ≡ serve_grpc r)
        ⊎ (respond prefer_web true req ≡ serve_grpc_web r))
unfolding respond
respond_served prefer_web req w =
    elim (Bool-cases (
      accepts_trailers req.header
      && (not prefer_web && (names_grpc req.header))
      && not (grpc_web_only req.header))) [
        | inl native ↦ (req, inl (ground arith))
        | inr web ↦ (
          record req { header = set req.header (codes "TE") (codes "trailers") },
          inr (ground arith),
        )
      ]

downgradable_served :
    (paths : List Bytes) (opts : Options) (req : Request)
    → found (find paths req.path) ≡ true
    → accepts_grpc_web req.header ≡ true
    → (r : Request) × ((handle_grpc_web paths opts req ≡ serve_grpc r)
        ⊎ (handle_grpc_web paths opts req ≡ serve_grpc_web r))
unfolding handle_grpc_web
downgradable_served paths opts req p w = elim (Bool-cases (is_http2 req)) [
  | inl two ↦ rw (p, two) (respond_served opts.prefer_grpc_web req w)
  | inr one ↦ rw (p, one) (respond_served opts.prefer_grpc_web (as_http2 req) w)
]

-- A gRPC-Web response is only ever sent for a method of the server without client streaming, to a client
-- that accepts it and did not ask for a WebSocket; the gRPC server sees an HTTP/2 request that announces
-- trailers.
pub grpc_web_response_safe :
    (services : List (Bytes × List MethodInfo)) (opts : List ServerOption) (req : Request)
    {r : Request}
    → create_downgrading_handler services opts req ≡ serve_grpc_web r
    → Downgradable req.path services
      × (accepts_grpc_web req.header ≡ true)
      × (is_websocket_upgrade req.header ≡ no_upgrade)
      × (r.proto_major ≡ 2)
      × (accepts_trailers r.header ≡ true)
unfolding create_downgrading_handler
grpc_web_response_safe services opts req e =
    let (u, c, e') = handle_web (valid_paths services) (apply_all default_options opts) req e in
    let (p, w, v, h) =
      web_response (valid_paths services) (apply_all default_options opts) (as_grpc req) e' in
    (
      (valid_paths_iff req.path services).0 p,
      sym (set-accepts_grpc_web req.header (codes "application/grpc")) ∙ w,
      u,
      v,
      rw h (te_set (as_grpc req).header),
    )

-- A client that accepts gRPC-Web is served on every method without client streaming, over HTTP/1 and
-- HTTP/2 alike, with a native response or with a gRPC-Web response: if its content type is that of
-- gRPC or gRPC-Web, and it asks for no WebSocket.
pub web_client_served :
    (services : List (Bytes × List MethodInfo)) (opts : List ServerOption) (req : Request)
    → is_websocket_upgrade req.header ≡ no_upgrade
    → is_content_type_valid (get req.header (codes "Content-Type")) ≡ true
    → Downgradable req.path services
    → accepts_grpc_web req.header ≡ true
    → (r : Request) × ((create_downgrading_handler services opts req ≡ serve_grpc r)
        ⊎ (create_downgrading_handler services opts req ≡ serve_grpc_web r))
unfolding create_downgrading_handler
web_client_served services opts req u c d w =
    let paths = valid_paths services in
    let opts' = apply_all default_options opts in
    rw (handle_grpc paths opts' req u c) (
      downgradable_served paths opts' (as_grpc req) ((valid_paths_iff req.path services).1 d)
        (set-accepts_grpc_web req.header (codes "application/grpc") ∙ w))
