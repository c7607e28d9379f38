-- ===== src/Tests/Client.antt =====
-- Runs of client/: the proxy's director and writer, and the options.
use go_grpc_http.Common.{ℕ, true, false, Option, none, some, List, [], ◌∷◌, Bytes, codes, ◌≡◌, refl}
use go_grpc_http.Errors.{Error, eof}
use go_grpc_http.Http.{Request, values, store, delete, get, add, set, del}
use go_grpc_http.Strings.{split2}
use go_grpc_http.Grpcweb.ResponseWriter.{Call, web_content_type}
use go_grpc_http.Server.Handler.{
  MethodInfo, serve_grpc_web, is_websocket_upgrade, is_content_type_valid,
  create_downgrading_handler,
}
use go_grpc_http.Server.Handler.Routing.{this, here}
use go_grpc_http.Client.Proxy.{direct, direct_header, accept_header, grpc_content_type}
use go_grpc_http.Client.Options.{
  ConnectOption, dial, downgrade, web_socket, with_content_type, apply, apply_all,
}
use go_grpc_http.Client.Connect.{
  Handler, reverse_proxy, http_transport, connected, directed, connect_via_proxy, create_proxy,
  create_client_proxy, create_transport, make_dial_opts,
}
use go_grpc_http.Client.Connect.Served.{connected_client_served}
use go_grpc_http.Client.Proxy.ContentType.{grpc_content_type-web_content_type}

abbrev services : List (Bytes × List MethodInfo)
services = (codes "S", record { name = codes "Get"; is_client_stream = false } ∷ []) ∷ []

abbrev request : Request
request = record {
  method = codes "POST";
  proto_major = 2;
  proto_minor = 0;
  proto = codes "HTTP/2.0";
  path = codes "/S/Get";
  scheme = [];
  host = [];
  header =
      (codes "Content-Type", codes "application/grpc" ∷ [])
      ∷ (codes "Te", codes "trailers" ∷ [])
      ∷ [];
  content_length = none;
}

-- Options: the last ones about the downgrade and about WebSockets count. A TLS configuration and a dial
-- option are numbers.
abbrev chosen : List (ConnectOption ℕ)
chosen =
    web_socket true
    ∷ dial (1 ∷ [])
    ∷ downgrade true
    ∷ with_content_type (codes "application/grpc+proto")
    ∷ web_socket false
    ∷ []

abbrev dialling : Bytes → ℕ → ℕ
dialling endpoint tls = 7

abbrev reachable : List ℕ → Option Error
reachable dial_opts = none

abbrev proxied : Handler ℕ
proxied =
    reverse_proxy (codes "h:80") (http_transport (some 5) (codes "h2" ∷ [])) false true
      (codes "application/grpc+proto")

connection :
    connect_via_proxy none none 3 dialling reachable (codes "h:80") (some 5) chosen
    ≡ connected proxied (3 ∷ 7 ∷ 1 ∷ [])
unfolding connect_via_proxy create_proxy create_client_proxy create_transport make_dial_opts
    apply_all apply
connection = refl

connected_client_served_example :
    (r : Request) × (directed proxied request
      ≡ some (direct false true (codes "h:80") (codes "application/grpc+proto") request))
    × (create_downgrading_handler services []
          (direct false true (codes "h:80") (codes "application/grpc+proto") request)
        ≡ serve_grpc_web r)
unfolding is_websocket_upgrade is_content_type_valid get values direct direct_header accept_header
    add set del store delete split2
connected_client_served_example =
    connected_client_served none none 3 dialling reachable services [] (codes "h:80") (some 5)
      chosen proxied (3 ∷ 7 ∷ 1 ∷ []) request connection refl refl refl refl (here (this refl refl))

grpc_content_type-web_content_type_example :
    (grpc_content_type (web_content_type (codes "application/grpc")) ≡ codes "application/grpc")
    × (grpc_content_type (web_content_type (codes "application/grpc+proto"))
        ≡ codes "application/grpc+proto")
grpc_content_type-web_content_type_example = grpc_content_type-web_content_type b'p' (codes "roto")

-- A writer that fails on its second write.
abbrev failing_later : List Call → Bytes → Option Error
failing_later [] bs = none
failing_later (_ ∷ _) bs = some eof
