-- ===== src/Tests/Reader/Modified.antt =====
-- The response of the parent module through `modifyResponse` of client/proxy.go.
use go_grpc_http.Common.{
  ◌<◌, none, some, [], ◌∷◌, Bytes, codes, ◌≡◌, refl, sym, subst, arith, append-nil, map,
}
use go_grpc_http.Errors.{ok}
use go_grpc_http.Io.Delivery.{chunk, ended}
use go_grpc_http.Io.Reading.{weight}
use go_grpc_http.Proto.{make_message_header}
use go_grpc_http.Proto.Frames.{frame}
use go_grpc_http.Http.{Header, get, values, or_empty}
use go_grpc_http.Http.Mime.Sent.{sent}
use go_grpc_http.Http.Response.{Response}
use go_grpc_http.Grpcweb.Consume.Framing.{stream}
use go_grpc_http.Grpcweb.ResponseWriter.{prepared}
use go_grpc_http.Grpcweb.ResponseReader.{ResponseReader}
use go_grpc_http.Grpcweb.ResponseReader.Delivery.{read_to_end}
use go_grpc_http.Client.Proxy.Response.{Modified, transcoded, modify_response}
use go_grpc_http.Client.Proxy.Response.Served.{IsGrpc, bare, modify_response-response}
use go_grpc_http.Tests.Reader.{
  no_failure, announcing, trailers, status_trailers, trailers-IsMap, trailers-IsField,
  trailers_written, messages, messages_frames, body_bytes, body_sent, body_IsByte,
}

abbrev web_response : Response
web_response = record {
  status_code = 200;
  status = codes "200 OK";
  header = prepared announcing;
  content_length = none;
  body = some ((body_bytes, none) ∷ []);
  trailer = [];
}

announcing-IsGrpc : IsGrpc (get announcing (codes "Content-Type"))
unfolding get
announcing-IsGrpc = bare

modify_response-response_example :
    (m : Modified) × (rr : ResponseReader) × (got : Header) × (modify_response web_response ≡ ok m)
    × (get m.header (codes "Content-Type") ≡ get announcing (codes "Content-Type"))
    × (m.body ≡ some (transcoded rr))
    × (read_to_end none 50 4 rr ≡ some (stream messages, got))
    × ((k : Bytes) → or_empty (values got k) ≡ map sent (or_empty (values trailers k)))
unfolding values frame make_message_header
modify_response-response_example =
    modify_response-response no_failure announcing 200 (stream messages ∷ []) status_trailers
      messages 50 4 web_response (omega arith) refl announcing-IsGrpc refl refl refl (λ cs bs. refl)
      (append-nil (stream messages)) messages_frames trailers-IsMap trailers-IsField
      (rw trailers_written (omega arith)) body_IsByte (chunk ended (sym (append-nil body_bytes)))
      (omega arith) (subst (λ bs. weight ((bs, none) ∷ []) < 50) (sym body_sent) (omega arith))
