-- ===== src/Client/WebsocketProxy/Response/Reading.antt =====
-- `readFromServer` on a response: a message with the header, data, and a message with the trailers.
use go_grpc_http.Common.{
  ℕ, ◌<◌, Bool, true, false, Option, none, List, [], ◌∷◌, ◌++◌, ltb, if◌then◌else◌, length, Bytes,
  codes, ◌≡◌, refl, sym, ap, ◌∙◌, arith, append-nil, append_assoc,
}
use go_grpc_http.Errors.{Error, eof, ok}
use go_grpc_http.Proto.{IsU32, message_header_length, make_message_header}
use go_grpc_http.Proto.Frames.{frame, validate_grpc_frame-frame, frame_kind}
use go_grpc_http.Http.{Header}
use go_grpc_http.Http.Mime.{parsed, read_mime_header}
use go_grpc_http.Server.WebsocketReader.{MessageType, binary}
use go_grpc_http.Grpcweb.ResponseWriter.{Call, wrote, wrote_header}
use go_grpc_http.Grpcweb.Consume.Framing.{AreDataFrames}
use go_grpc_http.Tunnel.{frames}
use go_grpc_http.Client.WebsocketProxy.Response.{
  CloseStatus, normal_closure, WebsocketConn, add_header, set_parsed, set_header, has_status,
  slice_from, set_sliced, check_header, check_body, data_message, trailers_message, returned,
  read_failed, after_trailers, write_data, go_on, dispatch, read_body, header_read, read_header,
  behind_header, write_status, read_from_server,
}

-- Messages of the WebSocket's binary type.
abbrev pub binaries : List Bytes → List (MessageType × Bytes)
binaries [] = []
binaries (m ∷ ms) = (binary, m) ∷ binaries ms

pub binaries-append : (ms ns : List Bytes) → binaries (ms ++ ns) ≡ binaries ms ++ binaries ns
binaries-append [] ns = refl
binaries-append (m ∷ ms) ns = ap ((binary, m) ∷◌) (binaries-append ms ns)

-- The writes of messages.
abbrev pub writes_of : List Bytes → List Call
writes_of [] = []
writes_of (m ∷ ms) = wrote m ∷ writes_of ms

check_header-frame : (p : Bytes) → IsU32 (length p) → check_header binary (frame 128 p) ≡ ok tt
unfolding check_header
check_header-frame p h =
    let (_, metadata, _) = frame_kind 128 p (omega arith) in
    rw (validate_grpc_frame-frame 128 p h, metadata) refl

check_body-data :
    (f : ℕ) (p : Bytes)
    → f < 128
    → IsU32 (length p)
    → check_body binary (frame f p) ≡ ok data_message
unfolding check_body
check_body-data f p lt h =
    let (data_bit, _, _) = frame_kind f p (omega arith) in
    let below : ltb f 128 ≡ true = ground arith in
    rw (validate_grpc_frame-frame f p h, data_bit, below) refl

check_body-trailers :
    (p : Bytes) → IsU32 (length p) → check_body binary (frame 128 p) ≡ ok trailers_message
unfolding check_body
check_body-trailers p h =
    let (data_bit, metadata, compressed) = frame_kind 128 p (omega arith) in
    rw (validate_grpc_frame-frame 128 p h, data_bit, metadata, compressed) refl

slice_from-frame : (p : Bytes) → slice_from message_header_length (frame 128 p) ≡ ok p
unfolding slice_from frame make_message_header
slice_from-frame p = ground arith

set_sliced_lem :
    (c : WebsocketConn) (p : Bytes) (is_trailers : Bool) {h : Header}
    → read_mime_header eof (p ++ codes "\r\n") ≡ parsed h []
    → set_sliced c is_trailers (slice_from message_header_length (frame 128 p))
      ≡ (record c { header = add_header is_trailers c.header h }, ok tt)
unfolding set_header
set_sliced_lem c p is_trailers {h} e =
    ap (set_sliced c is_trailers) (slice_from-frame p)
    ∙ ap (λ m. returned (set_parsed is_trailers c m)) e

module _ (write_error : List Call → Bytes → Option Error) (close_status : Error → CloseStatus)
    (never : (cs : List Call) (bs : Bytes) → write_error cs bs ≡ none) where
  read_body_data :
      (f : ℕ) (p : Bytes) (ms : List (MessageType × Bytes)) (e : Error) (c : WebsocketConn)
      → f < 128
      → IsU32 (length p)
      → read_body write_error close_status true ((binary, frame f p) ∷ ms) e c
        ≡ read_body write_error close_status true ms e
            (record c { calls = c.calls ++ wrote (frame f p) ∷ [] })
  unfolding read_body write_data dispatch
  read_body_data f p ms e c lt h =
      let next = λ (expected : Bool) (c' : WebsocketConn).
        read_body write_error close_status expected ms e c' in
      ap (λ t. dispatch write_error close_status c (frame f p) t next) (check_body-data f p lt h)
      ∙ ap
          (λ t.
            go_on (returned (record c { calls = c.calls ++ wrote (frame f p) ∷ [] }, t))
              (next true))
          (never c.calls (frame f p))

  read_body-frames :
      (fs : List (ℕ × Bytes)) (ms : List (MessageType × Bytes)) (e : Error) (c : WebsocketConn)
      → AreDataFrames fs
      → read_body write_error close_status true (binaries (frames fs) ++ ms) e c
        ≡ read_body write_error close_status true ms e
            (record c { calls = c.calls ++ writes_of (frames fs) })
  read_body-frames [] ms e c h =
      ap (λ t. read_body write_error close_status true ms e (record c { calls = t }))
        (sym (append-nil c.calls))
  read_body-frames ((f, p) ∷ fs) ms e c ((lt, n), h) =
      read_body_data f p (binaries (frames fs) ++ ms) e c lt n
      ∙ read_body-frames fs ms e (record c { calls = c.calls ++ wrote (frame f p) ∷ [] }) h
      ∙ ap (λ t. read_body write_error close_status true ms e (record c { calls = t }))
          (append_assoc c.calls (wrote (frame f p) ∷ []) (writes_of (frames fs)))

  read_body_end :
      (p : Bytes) (e : Error) (c : WebsocketConn) {h : Header}
      → IsU32 (length p)
      → read_mime_header eof (p ++ codes "\r\n") ≡ parsed h []
      → close_status e ≡ normal_closure
      → read_body write_error close_status true ((binary, frame 128 p) ∷ []) e c
        ≡ (record c { header = add_header true c.header h }, ok tt)
  unfolding read_body read_failed dispatch
  read_body_end p e c {h} small parses closed =
      let next = λ (expected : Bool) (c' : WebsocketConn).
        read_body write_error close_status expected [] e c' in
      ap (λ t. dispatch write_error close_status c (frame 128 p) t next)
        (check_body-trailers p small)
      ∙ ap (λ t. go_on t (next false)) (set_sliced_lem c p true parses)
      ∙ ap (λ t. (record c { header = add_header true c.header h }, after_trailers t e)) closed

  -- No write fails; the connection gives a message with the text of a header, data frames, and a message
  -- with the text of the trailers, and then it is closed normally; the header has no status. Then
  -- `readFromServer` returns no error, the writer got the status 200 with the header, and then the data
  -- frames, one to a write, and its header has the trailers behind the header's fields.
  pub read_from_server_lem :
      (header_text trailer_text : Bytes) (fs : List (ℕ × Bytes)) (e : Error) (c : WebsocketConn)
      {h t : Header}
      → IsU32 (length header_text)
      → IsU32 (length trailer_text)
      → AreDataFrames fs
      → read_mime_header eof (header_text ++ codes "\r\n") ≡ parsed h []
      → read_mime_header eof (trailer_text ++ codes "\r\n") ≡ parsed t []
      → close_status e ≡ normal_closure
      → has_status (record c { header = add_header false c.header h }) ≡ false
      → read_from_server write_error close_status
          (binaries (frame 128 header_text ∷ frames fs ++ frame 128 trailer_text ∷ []))
          e
          c
        ≡ (
          record c {
            header = add_header true (add_header false c.header h) t;
            calls =
                c.calls ++ wrote_header 200 (add_header false c.header h) ∷ writes_of (frames fs);
          },
          ok tt,
        )
  unfolding read_from_server read_header behind_header
  read_from_server_lem header_text trailer_text fs e c {h} {t} small small' ok_frames parses parses'
        closed none_yet =
      let c1 : WebsocketConn = record c { header = add_header false c.header h } in
      let tail : List (MessageType × Bytes) = (binary, frame 128 trailer_text) ∷ [] in
      let behind = binaries (frames fs ++ frame 128 trailer_text ∷ []) in
      let w = write_status c1 in
      ap
        (λ t.
          behind_header write_error close_status behind e (header_read c (frame 128 header_text) t))
        (check_header-frame header_text small)
      ∙ ap (λ t. behind_header write_error close_status behind e t)
          (set_sliced_lem c header_text false parses)
      ∙ ap (λ t. if t then (c1, ok tt) else read_body write_error close_status true behind e w)
          none_yet
      ∙ ap (λ t. read_body write_error close_status true t e w)
          (binaries-append (frames fs) (frame 128 trailer_text ∷ []))
      ∙ read_body-frames fs tail e w ok_frames
      ∙ read_body_end trailer_text e (record w { calls = w.calls ++ writes_of (frames fs) }) small'
          parses' closed
      ∙ ap (λ cs. (record c { header = add_header true c1.header t; calls = cs }, ok tt))
          (append_assoc c.calls (wrote_header 200 c1.header ∷ []) (writes_of (frames fs)))
