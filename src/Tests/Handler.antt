-- ===== src/Tests/Handler.antt =====
-- Runs of server/server.go: requests of the clients that the README lists.
use go_grpc_http.Common.{
  if◌then◌else◌, ℕ, true, false, none, List, [], ◌∷◌, Bytes, codes, ◌≡◌, refl, ◌⊎◌,
}
use go_grpc_http.Http.{Header, Request, values, get, set, store}
use go_grpc_http.Utf8.{decode_rune}
use go_grpc_http.Strings.{find, found, split2, fields_func, join, is_space}
use go_grpc_http.Server.Handler.{
  websocket_request, default_options, MethodInfo, valid_paths, serve_grpc, serve_grpc_web,
  accepts_grpc_web, accepted_content_types, accepts_trailers, grpc_web_only, names_grpc, as_http2,
  is_content_type_valid, is_websocket_upgrade, no_upgrade, handle, handle_grpc_web, respond,
  create_downgrading_handler,
}
use go_grpc_http.Server.Handler.Routing.{this, Downgradable, here, Native, handle_grpc_web-Native}
use go_grpc_http.Server.Handler.WebsocketRequest.{is_dropped, websocket_request_lem}
use go_grpc_http.Server.Handler.Clients.{
  as_grpc, plain_client_served, grpc_web_response_safe, web_client_served,
}

abbrev unary : MethodInfo
unary = record { name = codes "Get"; is_client_stream = false }

abbrev streaming : MethodInfo
streaming = record { name = codes "Put"; is_client_stream = true }

abbrev services : List (Bytes × List MethodInfo)
services = (codes "S", unary ∷ streaming ∷ []) ∷ []

abbrev request : ℕ → Bytes → Bytes → Header → Request
request major proto path header = record {
  method = codes "POST";
  proto_major = major;
  proto_minor = 0;
  proto = proto;
  path = path;
  scheme = codes "http";
  host = codes "h";
  header = header;
  content_length = none;
}

-- A plain gRPC client.
abbrev plain : Request
plain = request 2 (codes "HTTP/2.0") (codes "/S/Put") (
    (codes "Content-Type", codes "application/grpc" ∷ [])
    ∷ (codes "Te", codes "trailers" ∷ [])
    ∷ [])

-- A gRPC-Web client over HTTP/1.1.
abbrev web : Request
web = request 1 (codes "HTTP/1.1") (codes "/S/Get") (
    (codes "Content-Type", codes "application/grpc" ∷ [])
    ∷ (codes "Accept", codes "application/grpc-web" ∷ [])
    ∷ [])

plain_client_served_example :
    create_downgrading_handler services [] plain ≡ serve_grpc (as_grpc plain)
unfolding is_websocket_upgrade is_content_type_valid get values accepts_trailers accepts_grpc_web
    accepted_content_types grpc_web_only split2 find fields_func join
plain_client_served_example = plain_client_served services [] plain refl refl refl refl refl refl

web-Downgradable : Downgradable (codes "/S/Get") services
web-Downgradable = here (this refl refl)

web_client_served_example :
    (r : Request) × ((create_downgrading_handler services [] web ≡ serve_grpc r)
      ⊎ (create_downgrading_handler services [] web ≡ serve_grpc_web r))
unfolding is_websocket_upgrade is_content_type_valid get values accepts_grpc_web
    accepted_content_types split2 find fields_func join decode_rune is_space
web_client_served_example = web_client_served services [] web refl refl web-Downgradable refl

-- What the gRPC server is to serve for it.
abbrev web_served : Request
web_served = record (as_http2 (as_grpc web)) {
  header = set (as_grpc web).header (codes "TE") (codes "trailers");
}

grpc_web_response_safe_example :
    Downgradable (codes "/S/Get") services
    × (accepts_grpc_web web.header ≡ true)
    × (is_websocket_upgrade web.header ≡ no_upgrade)
    × (web_served.proto_major ≡ 2)
    × (accepts_trailers web_served.header ≡ true)
unfolding create_downgrading_handler handle handle_grpc_web respond valid_paths is_websocket_upgrade
    is_content_type_valid get set values store accepts_grpc_web accepted_content_types
    accepts_trailers names_grpc grpc_web_only split2 find fields_func join decode_rune is_space
grpc_web_response_safe_example = grpc_web_response_safe services [] web refl

handle_grpc_web-Native_example : Native default_options (found (find [] plain.path)) plain plain
unfolding handle_grpc_web respond get values accepts_grpc_web accepted_content_types
    accepts_trailers names_grpc grpc_web_only find fields_func join
handle_grpc_web-Native_example = handle_grpc_web-Native [] default_options plain refl

-- A WebSocket client.
abbrev socket : Request
socket = request 1 (codes "HTTP/1.1") (codes "/S/Put") (
    (codes "Connection", codes "Upgrade" ∷ [])
    ∷ (codes "Sec-Websocket-Key", codes "x" ∷ [])
    ∷ (codes "Te", codes "trailers" ∷ [])
    ∷ [])

websocket_request_lem_example :
    let r = websocket_request socket in
    (r.method ≡ codes "POST")
    × (r.proto_major ≡ 2)
    × (r.path ≡ socket.path)
    × (r.content_length ≡ none)
    × ((k : Bytes) → values r.header k ≡ (if is_dropped k then none else values socket.header k))
websocket_request_lem_example = websocket_request_lem socket
