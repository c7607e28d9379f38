-- ===== src/Grpcweb/ResponseWriter.antt =====
-- internal/grpcweb/response_writer.go: the writer that turns a gRPC response into a gRPC-Web response.
--
-- The underlying `http.ResponseWriter` is code of the HTTP server: the calls that reach it are kept in a
-- list, with the header as it stands at `WriteHeader`, and its answer to a `Write` is the parameter
-- `write_error`. It is a flusher, as that of the HTTP server is.
pub mod Frames
pub mod Unannounced
use go_grpc_http.Common.{
  ℕ, ◌+◌, ◌%◌, ◌^◌, Bool, true, false, not, ◌&&◌, Option, none, some, List, [], ◌∷◌, ◌++◌,
  if◌then◌else◌, equal, length, Bytes, codes,
}
use go_grpc_http.Errors.{Error}
use go_grpc_http.Proto.{put_be_uint32}
use go_grpc_http.Http.{Header, values, get, set, del}
use go_grpc_http.Http.Wire.{write_header_bytes, is_empty}
use go_grpc_http.Strings.{split2, shallow_clone}
use go_grpc_http.Trailers.{trailers_only, split_trailers}

-- A call on the underlying writer.
pub data Call : Type 0 where
  wrote_header : ℕ → Header → Call
  wrote : Bytes → Call
  flushed : Call

-- The header is the map of the underlying writer, which the gRPC server fills in.
pub record ResponseWriter : Type 0 where
  pub header : Header
  pub calls : List Call
  pub announced_trailers : Option (List Bytes)

-- `NewResponseWriter` on a writer with this header.
abbrev pub new_response_writer : Header → ResponseWriter
new_response_writer h = record { header = h; calls = []; announced_trailers = none }

-- The content type of the gRPC-Web response.
unfoldable pub web_content_type : Bytes → Bytes
unfolding equal
web_content_type content_type =
    let (ct, subtype) = split2 content_type (codes "+") in
    if equal ct (codes "application/grpc") && not (is_empty subtype)
    then codes "application/grpc-web" ++ (codes "+" ++ subtype)
    else codes "application/grpc-web"

-- What `prepareHeadersIfNecessary` makes of the header.
unfoldable pub prepared : Header → Header
unfolding web_content_type
prepared h =
    let h' = del h (codes "Trailer") in
    del (set h' (codes "Content-Type") (web_content_type (get h' (codes "Content-Type"))))
      (codes "Content-Length")

unfoldable pub prepare_headers_if_necessary : ResponseWriter → ResponseWriter
unfolding prepared
prepare_headers_if_necessary w = elim w.announced_trailers [
  | some _ ↦ w
  | none ↦ record w {
    header = prepared w.header;
    announced_trailers = shallow_clone (values w.header (codes "Trailer"));
  }
]

abbrev pub call : ResponseWriter → Call → ResponseWriter
call w c = record w { calls = w.calls ++ c ∷ [] }

unfoldable pub flush : ResponseWriter → ResponseWriter
flush w = elim w.announced_trailers [
  | none ↦ w
  | some _ ↦ call (prepare_headers_if_necessary w) flushed
]

unfoldable pub write_header : ResponseWriter → ℕ → ResponseWriter
write_header w status =
    let w' = prepare_headers_if_necessary w in call w' (wrote_header status w'.header)

module _ (write_error : List Call → Bytes → Option Error) where
  -- A `Write` that reaches the underlying writer.
  unfoldable pub write_through : ResponseWriter → Bytes → ResponseWriter × Option Error
  write_through w buf = (call w (wrote buf), write_error w.calls buf)

  unfoldable pub write : ResponseWriter → Bytes → ResponseWriter × Option Error
  unfolding write_through
  write w buf = write_through (prepare_headers_if_necessary w) buf

  -- The data frame with the trailers; its length is converted to a uint32.
  unfoldable pub write_frame : ResponseWriter → Bytes → ResponseWriter × Option Error
  unfolding write_through put_be_uint32
  write_frame w buf =
      let (w', e) = write_through w (128 ∷ put_be_uint32 (length buf % 2 ^ 32)) in
      elim e [ some x ↦ (w', some x) | none ↦ write_through w' buf ]

  unfoldable pub finalize : ResponseWriter → ResponseWriter × Option Error
  unfolding write_frame
  finalize w = elim w.announced_trailers [
    | none ↦ (record w { header = trailers_only w.header }, none)
    | some announced ↦
        let (hdr, trailers) = split_trailers w.header announced in
        write_frame (record w { header = hdr }) (write_header_bytes trailers)
  ]
