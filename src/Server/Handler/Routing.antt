-- ===== src/Server/Handler/Routing.antt =====
-- Which requests get which response.
use go_grpc_http.Common.{
  Bool, true, false, ◌||◌, List, [], ◌∷◌, ◌++◌, equal, equal_iff, Bytes, codes, ◌≡◌, refl, sym, ◌⊎◌,
  inl, inr, ◌↔◌, arith, Bool-cases,
}
use go_grpc_http.Http.{Request}
use go_grpc_http.Strings.{find, found}
use go_grpc_http.Server.Handler.{
  Options, MethodInfo, method_paths, valid_paths, serve_grpc, accepts_grpc_web, names_grpc,
  accepts_trailers, grpc_web_only, is_http2, handle_grpc_web,
}

-- A method without client streaming, by its path.
pub data HasMethod (service path : Bytes) : List MethodInfo → Type 0 where
  this :
      {m : MethodInfo} {ms : List MethodInfo}
      → m.is_client_stream ≡ false
      → path ≡ codes "/" ++ (service ++ (codes "/" ++ m.name))
      → HasMethod service path (m ∷ ms)
  later :
      {m : MethodInfo} {ms : List MethodInfo}
      → HasMethod service path ms
      → HasMethod service path (m ∷ ms)

-- A method of the server without client streaming, by its path.
pub data Downgradable (path : Bytes) : List (Bytes × List MethodInfo) → Type 0 where
  here :
      {service : Bytes} {methods : List MethodInfo} {services : List (Bytes × List MethodInfo)}
      → HasMethod service path methods
      → Downgradable path ((service, methods) ∷ services)
  there :
      {service : Bytes × List MethodInfo} {services : List (Bytes × List MethodInfo)}
      → Downgradable path services
      → Downgradable path (service ∷ services)

-- What the handler for gRPC knows of a request when it sends a native response.
pub record Native (opts : Options) (downgradable : Bool) (req r : Request) : Type 0 where
  pub trailers : accepts_trailers req.header ≡ true
  pub not_web_only : grpc_web_only req.header ≡ false
  pub wanted : accepts_grpc_web req.header ≡ true → names_grpc req.header ≡ true
  pub not_preferred :
      accepts_grpc_web req.header ≡ true → downgradable ≡ true → opts.prefer_grpc_web ≡ false
  pub over_http2 : (is_http2 req ≡ true) ⊎ (downgradable ≡ true)
  pub as_http2 : r.proto_major ≡ 2
  pub same_header : r.header ≡ req.header

-- `handleGRPCWeb` hands a request to the gRPC server for a native response only if the client takes
-- trailers, did not set `Grpc-Web-Only`, names `application/grpc` wherever it names
-- `application/grpc-web`, gRPC-Web is not preferred for it, and the request is HTTP/2 or its method can
-- be downgraded; the server sees an HTTP/2 request with the same header.
pub handle_grpc_web-Native :
    (paths : List Bytes) (opts : Options) (req : Request) {r : Request}
    → handle_grpc_web paths opts req ≡ serve_grpc r
    → Native opts (found (find paths req.path)) req r
unfolding handle_grpc_web
handle_grpc_web-Native paths opts req e = ground arith

find-append :
    (xs ys : List Bytes) (a : Bytes)
    → found (find (xs ++ ys) a) ≡ (found (find xs a) || found (find ys a))
unfolding find
find-append [] ys a = refl
find-append (x ∷ xs) ys a = ground (arith, find-append xs ys a)

find_method :
    (service path : Bytes) (methods : List MethodInfo)
    → found (find (method_paths service methods) path) ≡ true
    → HasMethod service path methods
unfolding method_paths find
find_method service path [] h = cc
find_method service path (m ∷ ms) h = elim (Bool-cases m.is_client_stream) [
  | inl streams ↦ later (find_method service path ms (ground arith))
  | inr plain ↦ elim (Bool-cases (equal (codes "/" ++ (service ++ (codes "/" ++ m.name))) path)) [
    | inl same ↦ this plain (sym ((equal_iff _ path).0 same))
    | inr other ↦ later (find_method service path ms (ground arith))
  ]
]

find-Downgradable :
    (path : Bytes) (services : List (Bytes × List MethodInfo))
    → found (find (valid_paths services) path) ≡ true
    → Downgradable path services
unfolding valid_paths
find-Downgradable path [] h = unfold find in cc
find-Downgradable path ((service, methods) ∷ services) h =
    elim (Bool-cases (found (find (method_paths service methods) path))) [
      | inl mine ↦ here (find_method service path methods mine)
      | inr not_mine ↦ there (
          find-Downgradable path services (
            ground (arith, find-append (method_paths service methods) (valid_paths services) path)))
    ]

method_found :
    {service path : Bytes} {methods : List MethodInfo}
    → HasMethod service path methods
    → found (find (method_paths service methods) path) ≡ true
unfolding method_paths find
method_found {service} {path} (this {m} plain e) =
    ground (arith, equal_iff (codes "/" ++ (service ++ (codes "/" ++ m.name))) path)
method_found (later {m} {ms} h) = ground (arith, method_found h)

Downgradable-found :
    {path : Bytes} {services : List (Bytes × List MethodInfo)}
    → Downgradable path services
    → found (find (valid_paths services) path) ≡ true
unfolding valid_paths
Downgradable-found {path} (here {service} {methods} {services} h) =
    rw (find-append (method_paths service methods) (valid_paths services) path)
      (rw (method_found h))
Downgradable-found {path} (there {service} {services} h) =
    rw (find-append (method_paths service.0 service.1) (valid_paths services) path)
      (rw (Downgradable-found h) (ground arith))

-- The paths that `CreateDowngradingHandler` allows for gRPC-Web are those of the server's methods that
-- do not use client streaming.
pub valid_paths_iff :
    (path : Bytes) (services : List (Bytes × List MethodInfo))
    → (found (find (valid_paths services) path) ≡ true) ↔ Downgradable path services
valid_paths_iff path services = (find-Downgradable path services, λ h. Downgradable-found h)
