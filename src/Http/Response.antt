-- ===== src/Http/Response.antt =====
-- An `http.Response` as the client's proxy gets it.
use go_grpc_http.Common.{ℕ, Option, Bytes}
use go_grpc_http.Io.{Reader}
use go_grpc_http.Http.{Header}

-- `status` is the code with its text. A content length of -1 is `none`, and so is a body that is nil.
pub record Response : Type 0 where
  pub status_code : ℕ
  pub status : Bytes
  pub header : Header
  pub content_length : Option ℕ
  pub body : Option Reader
  pub trailer : Header
