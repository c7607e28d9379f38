-- ===== src/Client/Connect/Configured.antt =====
-- client/proxy.go: what `ConnectViaProxy` makes of its options.
use go_grpc_http.Common.{
  Bool, true, false, not, ◌&&◌, Option, none, some, List, [], ◌∷◌, ◌++◌, if◌then◌else◌, Bytes,
  codes, ◌≡◌, inl, inr, refl, sym, ap, subst, Bool-cases,
}
use go_grpc_http.Errors.{Error, wrapped, Answer, gives, fails}
use go_grpc_http.Client.Options.{
  ConnectOptions, ConnectOption, no_options, dialled, named, last_content_type,
}
use go_grpc_http.Client.Options.Collected.{
  last_web_socket, last_downgrade, forces_http2, collected, apply_all-collected,
}
use go_grpc_http.Client.Connect.{
  Transport, http2_transport, http_transport, Handler, reverse_proxy, websocket_proxy, is_nil,
  checked, Connect, not_started, closed_again, connected, create_transport, proxy_of,
  create_client_proxy, create_client_ws_proxy, create_proxy, credentials, make_dial_opts,
  dialled_with, proxy_made, connect_via_proxy,
}

-- The handler that the options ask for.
abbrev pub transport_for :
    {Tls DialOption : Type 0} → Option Tls → List (ConnectOption DialOption) → Transport Tls
transport_for tls opts =
    if forces_http2 false opts
    then http2_transport tls
    else http_transport tls (codes "h2" ∷ named opts)

abbrev pub handler_for :
    {Tls DialOption : Type 0} → Bytes → Option Tls → List (ConnectOption DialOption) → Handler Tls
handler_for endpoint tls opts =
    if last_web_socket false opts
    then websocket_proxy (is_nil tls) endpoint tls
    else reverse_proxy endpoint (transport_for tls opts) (is_nil tls) (last_downgrade false opts)
        (last_content_type [] opts)

-- Only an `http.Transport` is configured for HTTP/2.
abbrev pub configures_transport : {DialOption : Type 0} → List (ConnectOption DialOption) → Bool
configures_transport opts = not (last_web_socket false opts) && not (forces_http2 false opts)

abbrev pub transport_first : Option Error → Option Error → Option Error
transport_first (some e) configure_server = some e
transport_first none configure_server = configure_server

-- The first error of the HTTP/2 library that the set-up meets: `configures` says whether it asks for the
-- configuration of a transport, which comes before that of the server.
abbrev pub refusal : Bool → Option Error → Option Error → Option Error
refusal configures configure_transport configure_server =
    if configures then transport_first configure_transport configure_server else configure_server

-- An error with texts in front of it.
pub data Wraps (x : Error) : Error → Type 0 where
  bare : Wraps x x
  behind : {e : Error} (text : Bytes) → Wraps x e → Wraps x (wrapped text e)

module _ (configure_transport configure_server : Option Error) where
  -- What the set-up returns: the value where nothing is refused, and else an error.
  data Made {A : Type 0} (a : A) (refused : Option Error) : Answer A → Type 0 where
    well : refused ≡ none → Made a refused (gives a)
    broken : {x e : Error} → refused ≡ some x → Wraps x e → Made a refused (fails e)

  checked-Made :
      {A : Type 0} (text : Bytes) (a : A) (o : Option Error) → Made a o (checked text o a)
  checked-Made text a none = well refl
  checked-Made text a (some e) = broken refl (behind text bare)

  transport_Made :
      {Tls DialOption : Type 0} (tls : Option Tls) (opts : List (ConnectOption DialOption))
      → Made
          (transport_for tls opts)
          (if forces_http2 false opts then none else configure_transport)
          (create_transport configure_transport configure_server tls
            (forces_http2 false opts)
            (named opts))
  unfolding create_transport
  transport_Made tls opts = elim (Bool-cases (forces_http2 false opts)) [
    | inl e ↦ rw e (well refl)
    | inr e ↦ rw e (checked-Made _ _ configure_transport)
  ]

  proxy_of-Made :
      {Tls : Type 0} (endpoint : Bytes) (tls : Option Tls) (force : Bool) (content_type : Bytes)
      (t : Transport Tls) {refused : Option Error} {a : Answer (Transport Tls)}
      → Made t refused a
      → Made
          (reverse_proxy endpoint t (is_nil tls) force content_type)
          (transport_first refused configure_server)
          (proxy_of configure_transport configure_server endpoint tls force content_type a)
  proxy_of-Made endpoint tls force content_type t (well e) =
      rw e (checked-Made _ _ configure_server)
  proxy_of-Made endpoint tls force content_type t (broken e w) = rw e (broken refl (behind _ w))

  refusal_lem :
      (forces : Bool)
      → transport_first (if forces then none else configure_transport) configure_server
        ≡ refusal (not forces) configure_transport configure_server
  refusal_lem true = refl
  refusal_lem false = refl

  create_proxy-Made :
      {Tls DialOption : Type 0} (endpoint : Bytes) (tls : Option Tls)
      (opts : List (ConnectOption DialOption))
      → Made
          (handler_for endpoint tls opts)
          (refusal (configures_transport opts) configure_transport configure_server)
          (create_proxy configure_transport configure_server endpoint tls
            (collected no_options opts))
  unfolding create_proxy create_client_proxy create_client_ws_proxy
  create_proxy-Made endpoint tls opts = elim (Bool-cases (last_web_socket false opts)) [
    | inl e ↦ rw e (checked-Made _ _ configure_server)
    | inr e ↦
        let forces = forces_http2 false opts in
        rw e (
          subst
            (λ o.
              Made
                (reverse_proxy endpoint (transport_for tls opts) (is_nil tls)
                  (last_downgrade false opts) (last_content_type [] opts))
                o
                (proxy_of configure_transport configure_server endpoint tls
                  (last_downgrade false opts) (last_content_type [] opts)
                  (create_transport configure_transport configure_server tls forces (named opts))))
            (refusal_lem forces) (proxy_of-Made endpoint tls _ _ _ (transport_Made tls opts)))
  ]

module _ {Tls DialOption : Type 0} (configure_transport configure_server : Option Error)
    (with_context_dialer : DialOption) (with_side_channel : Bytes → Tls → DialOption)
    (dial_context : List DialOption → Option Error) where
  -- The dial options that the connection is made with.
  abbrev pub dial_options_for :
      Bytes → Option Tls → List (ConnectOption DialOption) → List DialOption
  dial_options_for endpoint tls opts =
      with_context_dialer
        ∷ credentials configure_transport configure_server with_context_dialer with_side_channel
            dial_context endpoint tls
      ++ dialled opts

  pub data Connects (endpoint : Bytes) (tls : Option Tls) (opts : List (ConnectOption DialOption))
      : Connect Tls DialOption → Type 0 where
    failed :
        (x e : Error)
        → refusal (configures_transport opts) configure_transport configure_server ≡ some x
        → Wraps x e
        → Connects endpoint tls opts (not_started e)
    closed :
        (e : Error)
        → refusal (configures_transport opts) configure_transport configure_server ≡ none
        → dial_context (dial_options_for endpoint tls opts) ≡ some e
        → Connects endpoint tls opts (closed_again (handler_for endpoint tls opts) e)
    made :
        refusal (configures_transport opts) configure_transport configure_server ≡ none
        → dial_context (dial_options_for endpoint tls opts) ≡ none
        → Connects endpoint tls opts
            (connected (handler_for endpoint tls opts) (dial_options_for endpoint tls opts))

  dialled_with-Connects :
      (endpoint : Bytes) (tls : Option Tls) (opts : List (ConnectOption DialOption))
      (o : Option Error)
      → refusal (configures_transport opts) configure_transport configure_server ≡ none
      → dial_context (dial_options_for endpoint tls opts) ≡ o
      → Connects endpoint tls opts (
          dialled_with configure_transport configure_server with_context_dialer with_side_channel
            dial_context
            (handler_for endpoint tls opts)
            (dial_options_for endpoint tls opts)
            o)
  dialled_with-Connects endpoint tls opts none n h = made n h
  dialled_with-Connects endpoint tls opts (some e) n h = closed e n h

  proxy_made-Connects :
      (endpoint : Bytes) (tls : Option Tls) (opts : List (ConnectOption DialOption))
      {a : Answer (Handler Tls)}
      → Made configure_transport configure_server
          (handler_for endpoint tls opts)
          (refusal (configures_transport opts) configure_transport configure_server)
          a
      → Connects endpoint tls opts (
          proxy_made configure_transport configure_server with_context_dialer with_side_channel
            dial_context endpoint tls
            (collected no_options opts)
            a)
  unfolding make_dial_opts
  proxy_made-Connects endpoint tls opts (well n) =
      dialled_with-Connects endpoint tls opts (dial_context (dial_options_for endpoint tls opts)) n
        refl
  proxy_made-Connects endpoint tls opts (broken h w) = failed _ _ h (behind _ w)

  pub connect_via_proxy-Connects :
      (endpoint : Bytes) (tls : Option Tls) (opts : List (ConnectOption DialOption))
      → Connects endpoint tls opts (
          connect_via_proxy configure_transport configure_server with_context_dialer
            with_side_channel dial_context endpoint tls opts)
  unfolding connect_via_proxy
  connect_via_proxy-Connects endpoint tls opts =
      let from : ConnectOptions DialOption → Connect Tls DialOption = λ o.
        proxy_made configure_transport configure_server with_context_dialer with_side_channel
          dial_context endpoint tls o
          (create_proxy configure_transport configure_server endpoint tls o) in
      subst (Connects endpoint tls opts) (sym (ap from (apply_all-collected opts no_options))) (
        proxy_made-Connects endpoint tls opts
          (create_proxy-Made configure_transport configure_server endpoint tls opts))
