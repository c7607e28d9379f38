-- ===== src/Client/Proxy/ContentType.antt =====
-- The content type of a response, through the server's writer and the client's proxy.
use go_grpc_http.Common.{ℕ, ◌∷◌, ◌++◌, equal, Bytes, codes, ◌≡◌, refl}
use go_grpc_http.Strings.{split2, index, has_prefix}
use go_grpc_http.Grpcweb.ResponseWriter.{web_content_type}
use go_grpc_http.Client.Proxy.{grpc_content_type}

-- A gRPC content type, plain or with a subtype that is not empty, comes through the downgrade of the
-- server and the client's `modifyResponse` unchanged.
pub grpc_content_type-web_content_type :
    (c : ℕ) (cs : Bytes)
    → (grpc_content_type (web_content_type (codes "application/grpc")) ≡ codes "application/grpc")
      × (grpc_content_type (web_content_type (codes "application/grpc" ++ (codes "+" ++ c ∷ cs)))
          ≡ codes "application/grpc" ++ (codes "+" ++ c ∷ cs))
unfolding grpc_content_type web_content_type split2 index has_prefix equal
grpc_content_type-web_content_type c cs = (refl, refl)
