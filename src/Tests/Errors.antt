-- ===== src/Tests/Errors.antt =====
-- Responses at the client's proxy: one that is an error, and one of the server's `handleGRPCWeb`.
use go_grpc_http.Common.{none, some, [], ◌∷◌, codes}
use go_grpc_http.Http.Response.{Response}
use go_grpc_http.Httputils.{extract_response_error}
use go_grpc_http.Httputils.Bounds.{Extracted, extract_response_error-Extracted}

abbrev not_found : Response
not_found = record {
  status_code = 404;
  status = codes "404 Not Found";
  header = (codes "Content-Type", codes "text/plain; charset=utf-8" ∷ []) ∷ [];
  content_length = none;
  body = some ((codes "no such page\n", none) ∷ []);
  trailer = [];
}

extract_response_error-Extracted_example : Extracted not_found (extract_response_error not_found)
extract_response_error-Extracted_example = extract_response_error-Extracted not_found
