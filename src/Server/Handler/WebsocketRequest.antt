-- ===== src/Server/Handler/WebsocketRequest.antt =====
-- The gRPC request that `handleGRPCWS` makes of a WebSocket request.
use go_grpc_http.Common.{
  Bool, ◌||◌, none, [], ◌∷◌, if◌then◌else◌, equal, equal_iff, Bytes, codes, ◌≡◌, refl, arith,
}
use go_grpc_http.Http.{Header, values, del, canonical_header_key, Request}
use go_grpc_http.Http.Laws.{values-del}
use go_grpc_http.Strings.{has_prefix}
use go_grpc_http.Server.Handler.{drop_websocket_fields, websocket_request}

values-drop_websocket_fields :
    (h : Header) (k : Bytes)
    → values (drop_websocket_fields h) k
      ≡ (if has_prefix k (codes "Sec-Websocket-") then none else values h k)
unfolding values drop_websocket_fields
values-drop_websocket_fields [] k = ground arith
values-drop_websocket_fields ((j, vs) ∷ h) k =
    ground (arith, equal_iff j k, values-drop_websocket_fields h k)

-- The fields of the handshake and of the body's length.
abbrev pub is_dropped : Bytes → Bool
is_dropped k =
    has_prefix k (codes "Sec-Websocket-")
    || equal (codes "Connection") k
    || equal (codes "Upgrade") k
    || equal (codes "Content-Length") k

header_lem :
    (h : Header) (k : Bytes)
    → values
        (del
          (drop_websocket_fields (del (del h (codes "Connection")) (codes "Upgrade")))
          (codes "Content-Length"))
        k
      ≡ (if is_dropped k then none else values h k)
unfolding canonical_header_key
header_lem h k =
    let h1 = del h (codes "Connection") in
    let h2 = del h1 (codes "Upgrade") in
    ground (
      arith,
      values-del (drop_websocket_fields h2) (codes "Content-Length") k,
      values-drop_websocket_fields h2 k,
      values-del h1 (codes "Upgrade") k,
      values-del h (codes "Connection") k,
    )

-- Of an accepted WebSocket request the gRPC server sees a POST over HTTP/2 for the same path, of unknown
-- length, with every field of the header but those of the handshake, `Connection`, `Upgrade` and
-- `Content-Length`.
pub websocket_request_lem :
    (req : Request)
    → let r = websocket_request req in
      (r.method ≡ codes "POST")
      × (r.proto_major ≡ 2)
      × (r.path ≡ req.path)
      × (r.content_length ≡ none)
      × ((k : Bytes) → values r.header k ≡ (if is_dropped k then none else values req.header k))
unfolding websocket_request
websocket_request_lem req = (refl, refl, refl, refl, λ k. header_lem req.header k)
