-- ===== src/Client/SideChannel/Calls.antt =====
-- client/side_channel_creds.go: the calls of `ClientHandshake` on one value of the credentials.
use go_grpc_http.Common.{ℕ, Option, none, some, List, [], ◌∷◌, Bytes, ◌≡◌}
use go_grpc_http.Errors.{Error, Answer, gives, fails}
use go_grpc_http.Client.SideChannel.{Outside, Event, opened, wrote, closed, Ended, client_handshake}

-- The connections that a call opens, and those that it closes.
abbrev pub opens : List Event → List ℕ
opens [] = []
opens (opened c ∷ es) = c ∷ opens es
opens (wrote c bs ∷ es) = opens es
opens (closed c ∷ es) = opens es

abbrev pub closes : List Event → List ℕ
closes [] = []
closes (opened c ∷ es) = closes es
closes (wrote c bs ∷ es) = closes es
closes (closed c ∷ es) = c ∷ closes es

-- A call, by what it finds outside, the authority and the connection that it is for.
pub record Call (Auth : Type 0) : Type 0 where
  pub out : Outside Auth
  pub authority : Bytes
  pub raw_conn : ℕ

-- The call's connection, what it did, and its result.
pub record Entry (Auth : Type 0) : Type 0 where
  pub raw_conn : ℕ
  pub events : List Event
  pub result : Answer (ℕ × Auth)

module _ {Auth : Type 0} (endpoint : Bytes) where
  unfoldable pub run : Option Auth → List (Call Auth) → List (Entry Auth)
  run o [] = []
  run o (c ∷ cs) =
      let e = client_handshake c.out endpoint o c.authority c.raw_conn in
      record { raw_conn = c.raw_conn; events = e.events; result = e.result } ∷ run e.auth_info cs

-- The calls on credentials without and with a result. A failed call closes what it opens, unless it
-- spoke to a proxy and the proxy's answer was refused.
pub data Log {Auth : Type 0} : Option Auth → List (Call Auth) → List (Entry Auth) → Type 0 where
  ended : {o : Option Auth} → Log o [] []
  failed :
      {c : Call Auth} {events : List Event} {e : Error} {cs : List (Call Auth)}
      {es : List (Entry Auth)}
      → opens events ≡ closes events
      → Log none cs es
      → Log none (c ∷ cs) (record { raw_conn = c.raw_conn; events = events; result = fails e } ∷ es)
  left_open :
      {c : Call Auth} {e : Error} {cs : List (Call Auth)} {es : List (Entry Auth)} (conn : ℕ)
      (sent : Bytes)
      → Log none cs es
      → Log none (c ∷ cs) (
          record {
            raw_conn = c.raw_conn;
            events = opened conn ∷ wrote conn sent ∷ [];
            result = fails e;
          }
          ∷ es)
  first :
      {c : Call Auth} {events : List Event} {cs : List (Call Auth)} {es : List (Entry Auth)}
      (a : Auth) (conn : ℕ)
      → c.out.tls_handshake c.authority conn ≡ gives a
      → opens events ≡ conn ∷ []
      → closes events ≡ conn ∷ []
      → Log (some a) cs es
      → Log none
          (c ∷ cs)
          (record { raw_conn = c.raw_conn; events = events; result = gives (c.raw_conn, a) } ∷ es)
  again :
      {c : Call Auth} {a : Auth} {cs : List (Call Auth)} {es : List (Entry Auth)}
      → Log (some a) cs es
      → Log
          (some a)
          (c ∷ cs)
          (record { raw_conn = c.raw_conn; events = []; result = gives (c.raw_conn, a) } ∷ es)

-- What a dial of the side channel comes to.
data Dials : List Event × Answer ℕ → Type 0 where
  nothing : (e : Error) → Dials ([], fails e)
  refused :
      (conn : ℕ) (sent : Bytes) (e : Error) → Dials (opened conn ∷ wrote conn sent ∷ [], fails e)
  straight : (conn : ℕ) → Dials (opened conn ∷ [], gives conn)
  via_proxy : (conn : ℕ) (sent : Bytes) → Dials (opened conn ∷ wrote conn sent ∷ [], gives conn)

-- How a call on credentials without a result ends.
data Ends {Auth : Type 0} (c : Call Auth) : Ended Auth → Type 0 where
  ends_closed :
      (events : List Event) (e : Error)
      → opens events ≡ closes events
      → Ends c (record { auth_info = none; events = events; result = fails e })
  ends_open :
      (conn : ℕ) (sent : Bytes) (e : Error)
      → Ends c (record {
        auth_info = none;
        events = opened conn ∷ wrote conn sent ∷ [];
        result = fails e;
      })
  ends_well :
      (events : List Event) (a : Auth) (conn : ℕ)
      → c.out.tls_handshake c.authority conn ≡ gives a
      → opens events ≡ conn ∷ []
      → closes events ≡ conn ∷ []
      → Ends c (record { auth_info = some a; events = events; result = gives (c.raw_conn, a) })
