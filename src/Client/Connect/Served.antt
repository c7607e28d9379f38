-- ===== src/Client/Connect/Served.antt =====
-- A client that `ConnectViaProxy` of client/proxy.go connects with a forced downgrade, and the server.
use go_grpc_http.Common.{true, false, Option, some, List, [], Bytes, codes, ◌≡◌, refl, sym, ap, ◌∙◌}
use go_grpc_http.Errors.{Error}
use go_grpc_http.Http.{Request, get}
use go_grpc_http.Server.Handler.{
  MethodInfo, ServerOption, create_downgrading_handler, serve_grpc_web, is_websocket_upgrade,
  no_upgrade, is_content_type_valid,
}
use go_grpc_http.Server.Handler.Routing.{Downgradable}
use go_grpc_http.Client.Options.{ConnectOption, last_content_type}
use go_grpc_http.Client.Options.Collected.{last_web_socket, last_downgrade}
use go_grpc_http.Client.Proxy.{direct}
use go_grpc_http.Client.Proxy.Forced.{forced_client_served}
use go_grpc_http.Client.Connect.{
  Handler, reverse_proxy, is_nil, Connect, connected, directed, connect_via_proxy,
}
use go_grpc_http.Client.Connect.Configured.{
  transport_for, handler_for, Connects, failed, closed, made, connect_via_proxy-Connects,
}

module _ {Tls DialOption : Type 0} (configure_transport configure_server : Option Error)
    (with_context_dialer : DialOption) (with_side_channel : Bytes → Tls → DialOption)
    (dial_context : List DialOption → Option Error) where
  Connects-connected :
      {endpoint : Bytes} {tls : Option Tls} {opts : List (ConnectOption DialOption)}
      {c : Connect Tls DialOption} {handler : Handler Tls} {dial_opts : List DialOption}
      → Connects configure_transport configure_server with_context_dialer with_side_channel
          dial_context endpoint tls opts c
      → c ≡ connected handler dial_opts
      → handler_for endpoint tls opts ≡ handler
  Connects-connected (failed x e n w) h = cc
  Connects-connected (closed e n f) h = cc
  Connects-connected (made n f) h = cc

  handler_for-forced :
      (endpoint : Bytes) (tls : Option Tls) (opts : List (ConnectOption DialOption))
      → last_web_socket false opts ≡ false
      → last_downgrade false opts ≡ true
      → handler_for endpoint tls opts
        ≡ reverse_proxy endpoint
            (transport_for tls opts)
            (is_nil tls)
            true
            (last_content_type [] opts)
  handler_for-forced endpoint tls opts w d = rw (w, d) refl

  -- `ConnectViaProxy` has connected, with options of which the last about WebSockets, if any, does not ask
  -- for them, and the last about the downgrade forces it. Then the server of any services and options
  -- answers every request that the client's proxy passes on as gRPC-Web, if it is for a method without
  -- client streaming, has the content type of gRPC or gRPC-Web, and is no WebSocket upgrade.
  pub connected_client_served :
      (services : List (Bytes × List MethodInfo)) (server_opts : List ServerOption)
      (endpoint : Bytes) (tls : Option Tls) (opts : List (ConnectOption DialOption))
      (handler : Handler Tls) (dial_opts : List DialOption) (req : Request)
      → let sent = direct (is_nil tls) true endpoint (last_content_type [] opts) req in
        connect_via_proxy configure_transport configure_server with_context_dialer with_side_channel
            dial_context endpoint tls opts
          ≡ connected handler dial_opts
        → last_web_socket false opts ≡ false
        → last_downgrade false opts ≡ true
        → is_websocket_upgrade sent.header ≡ no_upgrade
        → is_content_type_valid (get sent.header (codes "Content-Type")) ≡ true
        → Downgradable req.path services
        → (r : Request) × (directed handler req ≡ some sent)
          × (create_downgrading_handler services server_opts sent ≡ serve_grpc_web r)
  connected_client_served services server_opts endpoint tls opts handler dial_opts req c w d u v m =
      let asked =
        Connects-connected
          (connect_via_proxy-Connects configure_transport configure_server with_context_dialer
            with_side_channel dial_context endpoint tls opts)
          c in
      let (r, served) =
        forced_client_served services server_opts (is_nil tls) endpoint (last_content_type [] opts)
          req u v m in
      (r, ap (λ t. directed t req) (sym asked ∙ handler_for-forced endpoint tls opts w d), served)
