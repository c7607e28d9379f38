-- ===== src/Server/Handler.antt =====
-- server/server.go and server/options.go: which of the protocols a request is served by.
--
-- `*grpc.Server`, the plain handler and the WebSocket library are code outside the repository. What the
-- handler does with a request is a value of `Action`: the call that it makes of one of them, with the
-- request that it hands over, or the error that it answers.
pub mod Routing
pub mod Clients
pub mod WebsocketRequest
use go_grpc_http.Common.{
  ℕ, zero, suc, Bool, true, false, not, ◌&&◌, ◌||◌, Option, none, some, List, [], ◌∷◌, ◌++◌, ◌==◌,
  if◌then◌else◌, equal, Bytes, codes,
}
use go_grpc_http.Errors.{Error}
use go_grpc_http.Http.{Header, values, delete, get, set, del, or_empty, Request}
use go_grpc_http.Strings.{has_prefix, split2, find, found, join, fields_func, is_space, equal_fold}

-- `options`, and the option `PreferGRPCWeb`.
pub record Options : Type 0 where
  pub prefer_grpc_web : Bool

pub data ServerOption : Type 0 where
  prefer : Bool → ServerOption

unfoldable pub apply : Options → ServerOption → Options
apply o (prefer b) = record o { prefer_grpc_web = b }

-- `for _, opt := range opts`
unfoldable pub apply_all : Options → List ServerOption → Options
unfolding apply
apply_all o [] = o
apply_all o (opt ∷ opts) = apply_all (apply o opt) opts

abbrev pub default_options : Options
default_options = record { prefer_grpc_web = false }

-- What `GetServiceInfo` says of a method.
pub record MethodInfo : Type 0 where
  pub name : Bytes
  pub is_client_stream : Bool

-- The downgradable paths of one service: those of the methods without client streaming.
unfoldable pub method_paths : Bytes → List MethodInfo → List Bytes
method_paths service [] = []
method_paths service (m ∷ ms) =
    let later = method_paths service ms in
    if m.is_client_stream then later else (codes "/" ++ (service ++ (codes "/" ++ m.name))) ∷ later

-- `validGRPCWebPaths`, over the services and their methods.
unfoldable pub valid_paths : List (Bytes × List MethodInfo) → List Bytes
unfolding method_paths
valid_paths [] = []
valid_paths ((service, methods) ∷ services) = method_paths service methods ++ valid_paths services

-- Why a request is refused, for the texts of the errors.
pub data Refusal : Type 0 where
  method_cannot_be_downgraded no_trailers_no_grpc_web grpc_web_not_downgradable : Refusal
  missing_connection_header missing_upgrade_header : Refusal

pub data Action : Type 0 where
  -- `http.Error` with a status.
  refuse : Refusal → ℕ → Action
  -- `grpcSrv.ServeHTTP` with the given writer.
  serve_grpc : Request → Action
  -- The same with the writer of internal/grpcweb around it, which is finalized behind the call.
  serve_grpc_web : Request → Action
  -- `handleGRPCWS`.
  serve_websocket : Request → Action
  -- `httpHandler.ServeHTTP`.
  serve_plain : Request → Action

-- `spaceOrComma`.
abbrev pub space_or_comma : ℕ → Bool
space_or_comma r = r == b',' || is_space r

unfoldable pub accepted_content_types : Header → List Bytes
accepted_content_types h =
    fields_func (join (or_empty (values h (codes "Accept"))) (codes ",")) space_or_comma

-- What the conditions of `handleGRPCWeb` read of a request.
unfoldable pub accepts_grpc_web : Header → Bool
accepts_grpc_web h = found (find (accepted_content_types h) (codes "application/grpc-web"))

unfoldable pub names_grpc : Header → Bool
names_grpc h = found (find (accepted_content_types h) (codes "application/grpc"))

unfoldable pub accepts_trailers : Header → Bool
unfolding equal
accepts_trailers h = equal (get h (codes "TE")) (codes "trailers")

unfoldable pub grpc_web_only : Header → Bool
grpc_web_only h = elim (or_empty (values h (codes "Grpc-Web-Only"))) [ [] ↦ false | v ∷ vs ↦ true ]

abbrev pub as_http2 : Request → Request
as_http2 req = record req { proto_major = 2; proto_minor = 0; proto = codes "HTTP/2.0" }

abbrev pub is_http2 : Request → Bool
is_http2 req = req.proto_major == 2

-- `handleGRPCWeb` behind the check for HTTP/2.
unfoldable pub respond : Bool → Bool → Request → Action
respond prefer_web downgradable req =
    let web = accepts_grpc_web req.header in
    let grpc = not web || names_grpc req.header in
    let grpc' = if prefer_web && downgradable && web then false else grpc in
    if accepts_trailers req.header && grpc' && not (grpc_web_only req.header)
    then serve_grpc req
    else if not web
    then refuse no_trailers_no_grpc_web 500
    else if not downgradable
    then refuse grpc_web_not_downgradable 400
    else serve_grpc_web (record req { header = set req.header (codes "TE") (codes "trailers") })

-- `handleGRPCWeb`.
unfoldable pub handle_grpc_web : List Bytes → Options → Request → Action
unfolding respond
handle_grpc_web paths opts req =
    let downgradable = found (find paths req.path) in
    if not (is_http2 req)
    then if not downgradable
      then refuse method_cannot_be_downgraded 500
      else respond opts.prefer_grpc_web downgradable (as_http2 req)
    else respond opts.prefer_grpc_web downgradable req

unfoldable pub is_content_type_valid : Bytes → Bool
unfolding equal
is_content_type_valid content_type =
    let (ct, _) = split2 content_type (codes "+") in
    equal ct (codes "application/grpc") || equal ct (codes "application/grpc-web")

-- `isWebSocketUpgrade`: a test, or a refusal.
pub data Upgrade : Type 0 where
  no_upgrade upgrade : Upgrade
  bad_upgrade : Refusal → Upgrade

unfoldable pub is_websocket_upgrade : Header → Upgrade
unfolding equal
is_websocket_upgrade h =
    if not (equal (get h (codes "Sec-Websocket-Protocol")) (codes "grpc-ws"))
    then no_upgrade
    else if not (equal_fold (get h (codes "Connection")) (codes "upgrade"))
    then bad_upgrade missing_connection_header
    else if not (equal_fold (get h (codes "Upgrade")) (codes "websocket"))
    then bad_upgrade missing_upgrade_header
    else upgrade

-- The handler that `CreateDowngradingHandler` returns, on its valid paths and its options.
unfoldable pub handle : List Bytes → Options → Request → Action
handle paths opts req = elim (is_websocket_upgrade req.header) [
  | bad_upgrade why ↦ refuse why 400
  | upgrade ↦ serve_websocket req
  | no_upgrade ↦
      if not (is_content_type_valid (get req.header (codes "Content-Type")))
      then serve_plain req
      else handle_grpc_web paths opts
          (record req { header = set req.header (codes "Content-Type") (codes "application/grpc") })
]

-- `CreateDowngradingHandler`.
unfoldable pub create_downgrading_handler :
    List (Bytes × List MethodInfo) → List ServerOption → Request → Action
create_downgrading_handler services opts =
    handle (valid_paths services) (apply_all default_options opts)

-- The loop of `handleGRPCWS` over the header, and the deletions around it.
unfoldable pub drop_websocket_fields : Header → Header
drop_websocket_fields [] = []
drop_websocket_fields ((k, vs) ∷ h) =
    let later = drop_websocket_fields h in
    if has_prefix k (codes "Sec-Websocket-") then later else (k, vs) ∷ later

-- The gRPC request that `handleGRPCWS` makes of an accepted WebSocket request.
unfoldable pub websocket_request : Request → Request
websocket_request req =
    let kept = del (del req.header (codes "Connection")) (codes "Upgrade") in
    record (as_http2 req) {
      method = codes "POST";
      header = del (drop_websocket_fields kept) (codes "Content-Length");
      content_length = none;
    }
