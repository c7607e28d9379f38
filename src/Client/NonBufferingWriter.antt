-- ===== src/Client/NonBufferingWriter.antt =====
-- client/non_buffering_writer.go: the writer that flushes behind every write.
--
-- The calls that reach the writer of the HTTP server are kept in a list, as in internal/grpcweb; its
-- answer to a write is the parameter `write_error`.
use go_grpc_http.Common.{
  ℕ, Bool, Option, none, List, [], ◌∷◌, ◌++◌, if◌then◌else◌, equal, Bytes, codes,
}
use go_grpc_http.Errors.{Error}
use go_grpc_http.Http.{Header, get, del}
use go_grpc_http.Grpcweb.ResponseWriter.{Call, wrote_header, wrote, flushed}

-- `dontFlushHeadersHeaderKey`.
abbrev pub dont_flush_headers_header_key : Bytes
dont_flush_headers_header_key = codes "Grpchttp1-Dont-Flush-Headers"

pub record NonBufferingWriter : Type 0 where
  pub header : Header
  pub calls : List Call

abbrev pub called : NonBufferingWriter → List Call → NonBufferingWriter
called w cs = record w { calls = w.calls ++ cs }

-- The header was marked by `modifyResponse`.
unfoldable pub is_marked : Header → Bool
unfolding equal
is_marked h = equal (get h dont_flush_headers_header_key) (codes "true")

unfoldable pub write_header : NonBufferingWriter → ℕ → NonBufferingWriter
write_header w status =
    let hdr = del w.header dont_flush_headers_header_key in
    let w' = record (called w (wrote_header status hdr ∷ [])) { header = hdr } in
    if is_marked w.header then w' else called w' (flushed ∷ [])

-- `Write`; without bytes it does not reach the writer.
unfoldable pub write :
    (List Call → Bytes → Option Error)
    → NonBufferingWriter
    → Bytes
    → NonBufferingWriter × Option Error
write write_error w [] = (w, none)
write write_error w (b ∷ bs) =
    (called w (wrote (b ∷ bs) ∷ flushed ∷ []), write_error w.calls (b ∷ bs))

-- What the HTTP server may still keep in its buffer: the bytes behind the last flush.
abbrev pub buffered : Bytes → List Call → Bytes
buffered bs [] = bs
buffered bs (wrote_header n h ∷ cs) = buffered bs cs
buffered bs (wrote p ∷ cs) = buffered (bs ++ p) cs
buffered bs (flushed ∷ cs) = buffered [] cs

abbrev pub run_writes :
    (List Call → Bytes → Option Error) → NonBufferingWriter → List Bytes → NonBufferingWriter
run_writes write_error w [] = w
run_writes write_error w (b ∷ bs) = run_writes write_error (write write_error w b).0 bs
