-- ===== src/Client/SideChannel.antt =====
-- client/side_channel_creds.go: credentials whose handshake is made over a connection of its own, once,
-- and whose result stands for every connection of the client.
--
-- A mutex is held through `ClientHandshake`, so the calls are one after the other. What net, net/url,
-- net/http and the TLS credentials answer during a call is the record `Outside`. Connections are numbers.
pub mod Calls
use go_grpc_http.Common.{
  ℕ, Bool, true, false, Option, none, some, List, [], ◌∷◌, ◌++◌, ◌==◌, ltb, if◌then◌else◌, Bytes,
  codes,
}
use go_grpc_http.Errors.{Error, message, message_of, Answer, gives, fails}
use go_grpc_http.Httputils.{decimal}
use go_grpc_http.Http.Wire.{is_empty}

-- A `url.URL` with what its methods `Hostname` and `Port` return.
pub record ProxyUrl : Type 0 where
  pub host : Bytes
  pub hostname : Bytes
  pub port : Bytes

-- The response to `CONNECT`, and the bytes that were read behind it.
pub record ConnectResponse : Type 0 where
  pub status_code : ℕ
  pub status : Bytes
  pub buffered : ℕ

pub record Outside (Auth : Type 0) : Type 0 where
  -- `http.NewRequest`, for its URL.
  pub new_request_error : Bytes → Option Error
  -- `http.ProxyFromEnvironment`, for a request to that URL.
  pub proxy_from_environment : Bytes → Answer (Option ProxyUrl)
  -- `DialContext` over tcp.
  pub dial : Bytes → Answer ℕ
  -- `http.ReadResponse`, on the connection and what was written to it.
  pub read_response : ℕ → Bytes → Answer ConnectResponse
  -- The handshake of the wrapped credentials, for the authority; its `AuthInfo` is not nil.
  pub tls_handshake : Bytes → ℕ → Answer Auth

-- What a call does to the connections that it dials.
pub data Event : Type 0 where
  opened : ℕ → Event
  wrote : ℕ → Bytes → Event
  closed : ℕ → Event

-- `net.JoinHostPort`.
has_colon : Bytes → Bool
has_colon [] = false
has_colon (c ∷ cs) = let rest = has_colon cs in if c == b':' then true else rest

unfoldable pub join_host_port : Bytes → Bytes → Bytes
unfolding has_colon
join_host_port host port =
    if has_colon host
    then codes "[" ++ (host ++ (codes "]:" ++ port))
    else host ++ (codes ":" ++ port)

-- Where the proxy is dialled.
unfoldable pub proxy_address : ProxyUrl → Bytes
unfolding join_host_port
proxy_address proxy =
    if is_empty proxy.port then join_host_port proxy.host (codes "80") else proxy.host

-- The text of the `CONNECT` request.
abbrev pub connect_request : Bytes → ProxyUrl → Bytes
connect_request addr proxy =
    codes "CONNECT "
    ++ (addr ++ (codes " HTTP/1.1\r\nHost: " ++ (proxy.hostname ++ codes "\r\n\r\n")))

-- The checks on the response.
unfoldable pub connected : Bytes → Bytes → ℕ → Answer ConnectResponse → Answer ℕ
unfolding decimal
connected addr proxy_addr conn (fails e) = fails (
    message_of
      (codes "failed to read response from HTTP CONNECT to "
        ++ (addr ++ (codes " via proxy " ++ (proxy_addr ++ codes ": "))))
      e)
connected addr proxy_addr conn (gives res) =
    let refused =
      codes "failed to dial "
      ++ (addr ++ (codes " via " ++ (proxy_addr ++ (codes ". response status: " ++ res.status)))) in
    let extra =
      codes "CONNECT response from "
      ++ (proxy_addr
          ++ (codes " resulted in "
              ++ (decimal res.buffered ++ codes " bytes of unexpected data"))) in
    if res.status_code == 200
    then (if ltb 0 res.buffered then fails (message extra) else gives conn)
    else fails (message refused)

-- A handshake's end: the connection passed in, with the side channel's result.
pub record Ended (Auth : Type 0) : Type 0 where
  pub auth_info : Option Auth
  pub events : List Event
  pub result : Answer (ℕ × Auth)

module _ {Auth : Type 0} (out : Outside Auth) where
  -- `dialViaCONNECT`, behind the dial of the proxy and from its beginning. The connection to the proxy
  -- stays open where the checks on the response fail.
  abbrev pub proxy_dialled : Bytes → ProxyUrl → Answer ℕ → List Event × Answer ℕ
  proxy_dialled addr proxy (fails e) = (
    [],
    fails (message_of (codes "failed to dial proxy " ++ (proxy_address proxy ++ codes ": ")) e),
  )
  proxy_dialled addr proxy (gives conn) =
      let sent = connect_request addr proxy in
      (
        opened conn ∷ wrote conn sent ∷ [],
        connected addr (proxy_address proxy) conn (out.read_response conn sent),
      )

  unfoldable pub dial_via_connect : Bytes → ProxyUrl → List Event × Answer ℕ
  unfolding proxy_address connected
  dial_via_connect addr proxy = proxy_dialled addr proxy (out.dial (proxy_address proxy))

  abbrev pub dialled_directly : Answer ℕ → List Event × Answer ℕ
  dialled_directly (fails e) = ([], fails e)
  dialled_directly (gives conn) = (opened conn ∷ [], gives conn)

  abbrev pub dial_side_channel : Bytes → Option ProxyUrl → List Event × Answer ℕ
  dial_side_channel endpoint none = dialled_directly (out.dial endpoint)
  dial_side_channel endpoint (some proxy) = dial_via_connect endpoint proxy

  -- The handshake over the side channel, and the deferred `Close`.
  abbrev pub shaken : ℕ → List Event → Answer Auth → Ended Auth
  shaken raw_conn events (fails e) = record { auth_info = none; events = events; result = fails e }
  shaken raw_conn events (gives a) = record {
    auth_info = some a;
    events = events;
    result = gives (raw_conn, a);
  }

  abbrev pub dialled : Bytes → ℕ → List Event × Answer ℕ → Ended Auth
  dialled authority raw_conn (events, fails e) = record {
    auth_info = none;
    events = events;
    result = fails e;
  }
  dialled authority raw_conn (events, gives conn) =
      shaken raw_conn (events ++ closed conn ∷ []) (out.tls_handshake authority conn)

  -- The failure to find the proxy.
  abbrev pub no_proxy_url : Bytes → Error → Ended Auth
  no_proxy_url endpoint e = record {
    auth_info = none;
    events = [];
    result =
        fails
          (message_of (codes "failed to determine proxy URL for " ++ (endpoint ++ codes ": ")) e);
  }

  abbrev pub proxy_found : Bytes → Bytes → ℕ → Answer (Option ProxyUrl) → Ended Auth
  proxy_found endpoint authority raw_conn (fails e) = no_proxy_url endpoint e
  proxy_found endpoint authority raw_conn (gives proxy) =
      dialled authority raw_conn (dial_side_channel endpoint proxy)

  abbrev pub requested : Bytes → Bytes → ℕ → Option Error → Ended Auth
  requested endpoint authority raw_conn (some e) = no_proxy_url endpoint e
  requested endpoint authority raw_conn none =
      proxy_found endpoint authority raw_conn
        (out.proxy_from_environment (codes "http://" ++ endpoint))

  -- `ClientHandshake`, on the credentials' endpoint and `authInfo`.
  unfoldable pub client_handshake : Bytes → Option Auth → Bytes → ℕ → Ended Auth
  unfolding dial_via_connect
  client_handshake endpoint (some a) authority raw_conn = record {
    auth_info = some a;
    events = [];
    result = gives (raw_conn, a);
  }
  client_handshake endpoint none authority raw_conn =
      requested endpoint authority raw_conn (out.new_request_error (codes "http://" ++ endpoint))
