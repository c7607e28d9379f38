-- ===== src/Client/Proxy/Response.antt =====
-- client/proxy.go: `modifyResponse`.
pub mod Served
use go_grpc_http.Common.{
  ℕ, Bool, true, false, Option, none, some, ◌==◌, if◌then◌else◌, equal, Bytes, codes,
}
use mathlib.Core.Option
use go_grpc_http.Errors.{Error, wrapped, Result, ok, err}
use go_grpc_http.Io.{Reader}
use go_grpc_http.Http.{Header, get, set}
use go_grpc_http.Http.Response.{Response}
use go_grpc_http.Httputils.{extract_response_error}
use go_grpc_http.Strings.{split2}
use go_grpc_http.Grpcweb.ResponseReader.{ResponseReader, new_response_reader}
use go_grpc_http.Client.NonBufferingWriter.{dont_flush_headers_header_key}
use go_grpc_http.Client.Proxy.{grpc_content_type}

-- The response's body: as it was, or through a response reader.
pub data Body : Type 0 where
  plain : Reader → Body
  transcoded : ResponseReader → Body

pub record Modified : Type 0 where
  pub header : Header
  pub body : Option Body

-- A response without a body is marked: its headers must not be flushed.
unfoldable pub mark : Option ℕ → Header → Header
unfolding set
mark none h = h
mark (some n) h = if n == 0 then set h dont_flush_headers_header_key (codes "true") else h

unfoldable pub is_grpc_web : Bytes → Bool
unfolding split2 equal
is_grpc_web content_type = equal (split2 content_type (codes "+")).0 (codes "application/grpc-web")

-- `modifyResponse` behind the check for an error, on the marked header.
abbrev pub converted : Response → Header → Bytes → Bool → Modified
converted resp h content_type true = record {
  header = set h (codes "Content-Type") content_type;
  body = Option.map (λ r. transcoded (new_response_reader r resp.trailer)) resp.body;
}
converted resp h content_type false = record { header = h; body = Option.map plain resp.body }

unfoldable pub transcode : Response → Header → Modified
unfolding get
transcode resp h =
    let content_type = get h (codes "Content-Type") in
    converted resp h (grpc_content_type content_type) (is_grpc_web content_type)

abbrev pub error_checked : Option Error × Response → Result Modified
error_checked (some e, resp) =
    err (wrapped (codes "receiving gRPC response from remote endpoint") e)
error_checked (none, resp) = ok (transcode resp (mark resp.content_length resp.header))

unfoldable pub modify_response : Response → Result Modified
unfolding extract_response_error mark transcode
modify_response resp = error_checked (extract_response_error resp)
