-- ===== src/Client/Connect.antt =====
-- client/proxy.go and `createClientWSProxy` of client/ws_proxy.go: `ConnectViaProxy`, which starts the
-- proxy in the client's process and dials it.
--
-- TLS configurations and dial options are values of libraries, of types that are parameters. What
-- `http2.ConfigureTransport`, `http2.ConfigureServer` and `grpc.DialContext` come to is a parameter too.
pub mod Configured
pub mod Served
use go_grpc_http.Common.{
  ℕ, suc, Bool, true, false, Option, none, some, List, [], ◌∷◌, ◌++◌, if◌then◌else◌, Bytes, codes,
}
use mathlib.Core.Option
use go_grpc_http.Errors.{Error, wrapped, Answer, gives, fails}
use go_grpc_http.Http.{Request}
use go_grpc_http.Client.Options.{ConnectOptions, ConnectOption, apply_all, no_options}
use go_grpc_http.Client.Proxy.{direct}

-- An `http2.Transport`, which dials without TLS where there is no configuration, or an
-- `http.Transport` with the protocols that are spoken as HTTP/2.
pub data Transport (Tls : Type 0) : Type 0 where
  http2_transport : Option Tls → Transport Tls
  http_transport : Option Tls → List Bytes → Transport Tls

-- The handler of the proxy's server: a `ReverseProxy`, by the arguments of `createReverseProxy`, or an
-- `http2WebSocketProxy`.
pub data Handler (Tls : Type 0) : Type 0 where
  reverse_proxy : Bytes → Transport Tls → Bool → Bool → Bytes → Handler Tls
  websocket_proxy : Bool → Bytes → Option Tls → Handler Tls

-- `tlsClientConf == nil`
abbrev pub is_nil : {Tls : Type 0} → Option Tls → Bool
is_nil none = true
is_nil (some t) = false

-- A call that has only an error, which is returned with a text in front of it.
abbrev pub checked {ℓ} : {A : Type ℓ} → Bytes → Option Error → A → Answer A
checked text none a = gives a
checked text (some e) a = fails (wrapped text e)

-- What comes of `ConnectViaProxy`: no server was started; the server was closed again; or the server
-- runs, and the connection was made with these dial options.
pub data Connect (Tls DialOption : Type 0) : Type 0 where
  not_started : Error → Connect Tls DialOption
  closed_again : Handler Tls → Error → Connect Tls DialOption
  connected : Handler Tls → List DialOption → Connect Tls DialOption

-- The handler's `Director`, where it has one.
abbrev pub directed : {Tls : Type 0} → Handler Tls → Request → Option Request
directed (reverse_proxy endpoint transport insecure force_downgrade content_type) req =
    some (direct insecure force_downgrade endpoint content_type req)
directed (websocket_proxy insecure endpoint tls) req = none

module _ {Tls : Type 0} (configure_transport configure_server : Option Error) where
  unfoldable pub create_transport : Option Tls → Bool → List Bytes → Answer (Transport Tls)
  create_transport tls force_http2 extra_h2_alpns =
      if force_http2
      then gives (http2_transport tls)
      else checked (codes "configuring transport for HTTP/2 use") configure_transport
          (http_transport tls (codes "h2" ∷ extra_h2_alpns))

  -- `makeProxyServer`, by the handler that its server gets.
  abbrev pub make_proxy_server : Handler Tls → Answer (Handler Tls)
  make_proxy_server handler = checked (codes "configuring HTTP/2 server") configure_server handler

  abbrev pub proxy_of :
      Bytes → Option Tls → Bool → Bytes → Answer (Transport Tls) → Answer (Handler Tls)
  proxy_of endpoint tls force_downgrade content_type (fails e) =
      fails (wrapped (codes "creating transport") e)
  proxy_of endpoint tls force_downgrade content_type (gives transport) =
      make_proxy_server (reverse_proxy endpoint transport (is_nil tls) force_downgrade content_type)

  unfoldable pub create_client_proxy :
      Bytes → Option Tls → Bool → Bool → List Bytes → Bytes → Answer (Handler Tls)
  unfolding create_transport
  create_client_proxy endpoint tls force_http2 force_downgrade extra_h2_alpns content_type =
      proxy_of endpoint tls force_downgrade content_type
        (create_transport tls force_http2 extra_h2_alpns)

  unfoldable pub create_client_ws_proxy : Bytes → Option Tls → Answer (Handler Tls)
  create_client_ws_proxy endpoint tls =
      make_proxy_server (websocket_proxy (is_nil tls) endpoint tls)

  -- The proxy that the options ask for.
  unfoldable pub create_proxy :
      {DialOption : Type 0} → Bytes → Option Tls → ConnectOptions DialOption → Answer (Handler Tls)
  unfolding create_client_proxy create_client_ws_proxy
  create_proxy endpoint tls opts =
      if opts.use_web_socket
      then create_client_ws_proxy endpoint tls
      else create_client_proxy endpoint tls opts.force_http2 opts.force_downgrade
          opts.extra_h2_alpns opts.content_type

module _ {Tls DialOption : Type 0} (configure_transport configure_server : Option Error)
    (with_context_dialer : DialOption) (with_side_channel : Bytes → Tls → DialOption)
    (dial_context : List DialOption → Option Error) where
  -- The option that `makeDialOpts` adds for TLS.
  abbrev pub credentials : Bytes → Option Tls → List DialOption
  credentials endpoint none = []
  credentials endpoint (some tls) = with_side_channel endpoint tls ∷ []

  unfoldable pub make_dial_opts : Bytes → Option Tls → ConnectOptions DialOption → List DialOption
  make_dial_opts endpoint tls opts =
      with_context_dialer ∷ credentials endpoint tls ++ opts.dial_opts

  -- `dialGRPCServer`, behind the dial and from its beginning.
  abbrev pub dialled_with : Handler Tls → List DialOption → Option Error → Connect Tls DialOption
  dialled_with proxy dial_opts (some e) = closed_again proxy e
  dialled_with proxy dial_opts none = connected proxy dial_opts

  abbrev pub dial_grpc_server : Handler Tls → List DialOption → Connect Tls DialOption
  dial_grpc_server proxy dial_opts = dialled_with proxy dial_opts (dial_context dial_opts)

  -- `ConnectViaProxy` behind the making of the proxy.
  abbrev pub proxy_made :
      Bytes → Option Tls → ConnectOptions DialOption → Answer (Handler Tls) → Connect Tls DialOption
  proxy_made endpoint tls opts (gives proxy) =
      dial_grpc_server proxy (make_dial_opts endpoint tls opts)
  proxy_made endpoint tls opts (fails e) = not_started (wrapped (codes "creating client proxy") e)

  unfoldable pub connect_via_proxy :
      Bytes → Option Tls → List (ConnectOption DialOption) → Connect Tls DialOption
  unfolding create_proxy make_dial_opts apply_all
  connect_via_proxy endpoint tls opts =
      let connect_opts = apply_all no_options opts in
      proxy_made endpoint tls connect_opts
        (create_proxy configure_transport configure_server endpoint tls connect_opts)

-- The connection's states, as `GetState` returns them one after the other.
pub data ConnState : Type 0 where
  idle connecting ready transient_failure shutdown : ConnState

-- `closeServerOnConnShutdown`, on the states that its calls of `GetState` return: how many it has seen
-- when it closes the server, or `none` while it waits.
unfoldable pub close_server_on_conn_shutdown : List ConnState → Option ℕ
close_server_on_conn_shutdown [] = none
close_server_on_conn_shutdown (shutdown ∷ states) = some 0
close_server_on_conn_shutdown (idle ∷ states) =
    Option.map suc (close_server_on_conn_shutdown states)
close_server_on_conn_shutdown (connecting ∷ states) =
    Option.map suc (close_server_on_conn_shutdown states)
close_server_on_conn_shutdown (ready ∷ states) =
    Option.map suc (close_server_on_conn_shutdown states)
close_server_on_conn_shutdown (transient_failure ∷ states) =
    Option.map suc (close_server_on_conn_shutdown states)
