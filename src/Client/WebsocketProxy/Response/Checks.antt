-- ===== src/Client/WebsocketProxy/Response/Checks.antt =====
-- The checks of `readFromServer` on messages of any bytes.
use go_grpc_http.Common.{
  ℕ, ◌≤◌, length, ◌≡◌, Bool, true, false, Option, none, some, List, [], ◌∷◌, if◌then◌else◌, drop,
  Bytes, ◌≢◌, refl, sym, ap, ◌∙◌, arith, Bool-cases, inl, inr,
}
use go_grpc_http.Errors.{Error, eof, ok, err, panic, Result, ◌>>=◌}
use go_grpc_http.Proto.{
  validate_grpc_frame, is_data_frame, is_metadata_frame, is_compressed, parse_message_header,
  be_uint32,
}
use go_grpc_http.Server.WebsocketReader.{MessageType, text, binary}
use go_grpc_http.Grpcweb.ResponseWriter.{Call}
use go_grpc_http.Client.WebsocketProxy.Response.{
  CloseStatus, normal_closure, going_away, other_status, no_status, WebsocketConn, check_header,
  check_body, require_binary, require_metadata, require_plain, classify, classify_metadata,
  BodyMessage, data_message, trailers_message, Finished, go_on, returned, slice_from, set_sliced,
  read_failed, after_trailers, write_data, set_header, dispatch, read_body, header_read,
  read_header, behind_header, read_from_server, rest_of, has_status, write_status,
}

validate_lem : (msg : Bytes) → validate_grpc_frame msg ≢ panic
unfolding validate_grpc_frame parse_message_header be_uint32
validate_lem (f ∷ a ∷ b ∷ c ∷ d ∷ payload) e = ground arith
validate_lem (f ∷ a ∷ b ∷ c ∷ []) e = ground arith
validate_lem (f ∷ a ∷ b ∷ []) e = ground arith
validate_lem (f ∷ a ∷ []) e = ground arith
validate_lem (f ∷ []) e = ground arith
validate_lem [] e = ground arith

-- Neither a check nor what is behind it panics.
then_lem :
    {A B : Type 0} (r : Result A) (q : Result B) → r ≢ panic → q ≢ panic → (r >>= (λ _. q)) ≢ panic
then_lem (ok a) q h k e = k e
then_lem (err x) q h k e = cc
then_lem panic q h k e = h refl

require_metadata_lem : (b : Bool) → require_metadata b ≢ panic
unfolding require_metadata
require_metadata_lem true e = cc
require_metadata_lem false e = cc

-- A message that is validated has a header, and so has one that the checks accept.
validate-long : (msg : Bytes) → validate_grpc_frame msg ≡ ok tt → 5 ≤ length msg
unfolding validate_grpc_frame
validate-long (f ∷ a ∷ b ∷ c ∷ d ∷ payload) e = omega arith
validate-long (f ∷ a ∷ b ∷ c ∷ []) e = absurd (ground arith)
validate-long (f ∷ a ∷ b ∷ []) e = absurd (ground arith)
validate-long (f ∷ a ∷ []) e = absurd (ground arith)
validate-long (f ∷ []) e = absurd (ground arith)
validate-long [] e = absurd (ground arith)

bind_first :
    {B : Type 0} (r : Result (Unit {0})) (f : Unit {0} → Result B) {b : B}
    → (r >>= f) ≡ ok b
    → r ≡ ok tt
bind_first (ok tt) f e = refl
bind_first (err x) f e = cc
bind_first panic f e = cc

check_header-long :
    (mt : MessageType) (msg : Bytes) {u : Unit {0}} → check_header mt msg ≡ ok u → 5 ≤ length msg
unfolding check_header require_binary
check_header-long text msg e = cc
check_header-long binary msg e = validate-long msg (bind_first (validate_grpc_frame msg) _ e)

check_body-long :
    (mt : MessageType) (msg : Bytes) {b : BodyMessage} → check_body mt msg ≡ ok b → 5 ≤ length msg
unfolding check_body require_binary
check_body-long text msg e = cc
check_body-long binary msg e = validate-long msg (bind_first (validate_grpc_frame msg) _ e)

check_header_lem : (mt : MessageType) (msg : Bytes) → check_header mt msg ≢ panic
unfolding check_header require_binary validate_grpc_frame is_metadata_frame
check_header_lem text msg e = cc
check_header_lem binary [] e = cc
check_header_lem binary (b ∷ rest) e =
    then_lem (validate_grpc_frame (b ∷ rest)) _ (validate_lem (b ∷ rest)) (require_metadata_lem _) e

classify_lem : (data_bit : Bool) (b : ℕ) (rest : Bytes) → classify data_bit (b ∷ rest) ≢ panic
unfolding classify classify_metadata require_plain is_metadata_frame is_compressed
classify_lem data_bit b rest e = ground arith

check_body_lem : (mt : MessageType) (msg : Bytes) → check_body mt msg ≢ panic
unfolding check_body require_binary validate_grpc_frame is_data_frame
check_body_lem text msg e = cc
check_body_lem binary [] e = cc
check_body_lem binary (b ∷ rest) e =
    then_lem (validate_grpc_frame (b ∷ rest)) _ (validate_lem (b ∷ rest)) (classify_lem _ b rest) e

returned_lem : (r : WebsocketConn × Option Error) → (returned r).1 ≢ panic
returned_lem (c, none) e = cc
returned_lem (c, some x) e = cc

-- The slice of a message that has a header is in range.
slice_from_lem : (n : ℕ) (msg : Bytes) → n ≤ length msg → slice_from n msg ≡ ok (drop n msg)
unfolding slice_from
slice_from_lem n msg h = ground arith

set_sliced_lem :
    (c : WebsocketConn) (is_trailers : Bool) (msg : Bytes)
    → 5 ≤ length msg
    → (set_sliced c is_trailers (slice_from 5 msg)).1 ≢ panic
set_sliced_lem c is_trailers msg h e =
    returned_lem (set_header c (drop 5 msg) is_trailers)
      (ap (λ r. (set_sliced c is_trailers r).1) (sym (slice_from_lem 5 msg h)) ∙ e)

header_read_lem :
    (c : WebsocketConn) (msg : Bytes) (r : Result (Unit {0}))
    → r ≢ panic
    → ((u : Unit {0}) → r ≡ ok u → 5 ≤ length msg)
    → (header_read c msg r).1 ≢ panic
header_read_lem c msg (ok a) h long e = set_sliced_lem c false msg (long _ refl) e
header_read_lem c msg (err x) h long e = cc
header_read_lem c msg panic h long e = h refl

read_header_lem :
    (ms : List (MessageType × Bytes)) (e : Error) (c : WebsocketConn)
    → (read_header ms e c).1 ≢ panic
unfolding read_header
read_header_lem [] e c h = cc
read_header_lem ((mt, msg) ∷ ms) e c h =
    header_read_lem c msg (check_header mt msg) (check_header_lem mt msg)
      (λ b k. check_header-long mt msg k) h

go_on_lem :
    (o : Finished) (next : WebsocketConn → Finished)
    → o.1 ≢ panic
    → ((c : WebsocketConn) → (next c).1 ≢ panic)
    → (go_on o next).1 ≢ panic
go_on_lem (c, ok _) next p h e = h c e
go_on_lem (c, err x) next p h e = cc
go_on_lem (c, panic) next p h e = p refl

after_trailers_lem : (s : CloseStatus) (e : Error) → after_trailers s e ≢ panic
after_trailers_lem normal_closure e h = cc
after_trailers_lem going_away e h = cc
after_trailers_lem other_status e h = cc
after_trailers_lem no_status eof h = cc
after_trailers_lem no_status e h = cc

module _ (write_error : List Call → Bytes → Option Error) (close_status : Error → CloseStatus) where
  dispatch_lem :
      (c : WebsocketConn) (msg : Bytes) (r : Result BodyMessage)
      (next : Bool → WebsocketConn → Finished)
      → r ≢ panic
      → ((b : BodyMessage) → r ≡ ok b → 5 ≤ length msg)
      → ((expected : Bool) (c' : WebsocketConn) → (next expected c').1 ≢ panic)
      → (dispatch write_error close_status c msg r next).1 ≢ panic
  unfolding dispatch
  dispatch_lem c msg (ok data_message) next h long k e =
      go_on_lem (returned (write_data write_error close_status c msg)) (next true)
        (returned_lem (write_data write_error close_status c msg)) (k true) e
  dispatch_lem c msg (ok trailers_message) next h long k e =
      go_on_lem (set_sliced c true (slice_from 5 msg)) (next false)
        (set_sliced_lem c true msg (long _ refl)) (k false) e
  dispatch_lem c msg (err x) next h long k e = cc
  dispatch_lem c msg panic next h long k e = h refl

  read_body_lem :
      (expected : Bool) (ms : List (MessageType × Bytes)) (e : Error) (c : WebsocketConn)
      → (read_body write_error close_status expected ms e c).1 ≢ panic
  unfolding read_body read_failed
  read_body_lem true [] e c h = cc
  read_body_lem false [] e c h = after_trailers_lem (close_status e) e h
  read_body_lem false (m ∷ ms) e c h = cc
  read_body_lem true ((mt, msg) ∷ ms) e c h =
      dispatch_lem c msg (check_body mt msg)
        (λ expected c'. read_body write_error close_status expected ms e c') (check_body_lem mt msg)
        (λ b k. check_body-long mt msg k) (λ expected c'. read_body_lem expected ms e c') h

  behind_header_lem :
      (ms : List (MessageType × Bytes)) (e : Error) (r : Finished)
      → r.1 ≢ panic
      → (behind_header write_error close_status ms e r).1 ≢ panic
  unfolding behind_header
  behind_header_lem ms e (c, ok a) h k = elim (Bool-cases (has_status c)) [
    | inl s ↦ cc
    | inr s ↦ read_body_lem true ms e (write_status c) (
        ap
          (λ b.
            (if b
              then (c, ok tt)
              else read_body write_error close_status true ms e (write_status c)).1)
          (sym s)
        ∙ k)
  ]
  behind_header_lem ms e (c, err x) h k = cc
  behind_header_lem ms e (c, panic) h k = h refl

  -- Whatever the messages are, `readFromServer` indexes and slices no message out of its
  -- range.
  pub read_from_server_safe :
      (ms : List (MessageType × Bytes)) (e : Error) (c : WebsocketConn)
      → (read_from_server write_error close_status ms e c).1 ≢ panic
  unfolding read_from_server
  read_from_server_safe ms e c =
      behind_header_lem (rest_of ms) e (read_header ms e c) (read_header_lem ms e c)
