-- ===== src/Client/Proxy.antt =====
-- client/proxy.go: what the reverse proxy in the client's process changes of requests and responses.
pub mod Forced
pub mod ContentType
pub mod Failure
pub mod Response
use go_grpc_http.Common.{
  ℕ, Bool, true, false, List, [], ◌∷◌, ◌++◌, if◌then◌else◌, equal, Bytes, codes,
}
use go_grpc_http.Http.{Header, get, set, add, del, Request}
use go_grpc_http.Http.Wire.{is_empty}
use go_grpc_http.Strings.{split2}

-- The `Accept` fields, and those of a forced downgrade.
unfoldable pub accept_header : Bool → Header → Header
accept_header force_downgrade h =
    add
      (if force_downgrade
        then add (del (del h (codes "TE")) (codes "Accept")) (codes "Grpc-Web-Only") (codes "true")
        else add h (codes "Accept") (codes "application/grpc"))
      (codes "Accept") (codes "application/grpc-web")

unfoldable pub direct_header : Bool → Bytes → Header → Header
direct_header force_downgrade content_type h =
    if is_empty content_type
    then accept_header force_downgrade h
    else set (accept_header force_downgrade h) (codes "Content-Type") content_type

abbrev pub as_http1 : Request → Request
as_http1 req = record req { proto_major = 1; proto_minor = 1; proto = codes "HTTP/1.1" }

-- `Director` of `createReverseProxy`.
unfoldable pub direct : Bool → Bool → Bytes → Bytes → Request → Request
direct insecure force_downgrade endpoint content_type req =
    record (if force_downgrade then as_http1 req else req) {
      header = direct_header force_downgrade content_type req.header;
      scheme = if insecure then codes "http" else codes "https";
      host = endpoint;
    }

-- The content type that `modifyResponse` gives a gRPC-Web response, and what it leaves of another one.
unfoldable pub grpc_content_type : Bytes → Bytes
unfolding equal
grpc_content_type content_type =
    let (ct, subtype) = split2 content_type (codes "+") in
    if equal ct (codes "application/grpc-web")
    then if is_empty subtype
      then codes "application/grpc"
      else codes "application/grpc" ++ (codes "+" ++ subtype)
    else content_type
