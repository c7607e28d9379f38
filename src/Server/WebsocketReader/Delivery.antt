-- ===== src/Server/WebsocketReader/Delivery.antt =====
-- What the gRPC server reads from the body of a gRPC-WebSocket request.
use go_grpc_http.Common.{
  ℕ, zero, suc, ◌≤◌, ◌<◌, Bool, true, false, Option, none, some, List, [], ◌∷◌, ◌++◌, if◌then◌else◌,
  length, take, drop, equal, Bytes, ◌≡◌, refl, sym, ap, ◌∙◌, subst, arith, take-append-drop,
  length-take, length-append, append_assoc,
}
use mathlib.Core.Option
use go_grpc_http.Errors.{Error, eof, ok}
use go_grpc_http.Io.{Reader, Transfer, read_all}
use go_grpc_http.Io.Delivery.{Delivers, read_all-Delivers}
use go_grpc_http.Proto.{
  IsU32, end_stream_header, validate_grpc_frame, is_end_of_stream, make_message_header,
}
use go_grpc_http.Proto.Frames.{frame, validate_grpc_frame-frame, frame_kind}
use go_grpc_http.Server.WebsocketReader.{
  binary, opened, Arrival, result, WsReader, Outcome, returns, check_message, copy_out, failing,
  forward, message_checked, message_read, arrived, do_read, read,
}

data_frame_ne_end :
    (flags : ℕ) (payload : Bytes) → flags < 128 → is_end_of_stream (frame flags payload) ≡ false
unfolding is_end_of_stream frame make_message_header equal
data_frame_ne_end flags payload f = ground arith

check_data_frame :
    (flags : ℕ) (payload : Bytes)
    → flags < 128
    → IsU32 (length payload)
    → check_message (frame flags payload) ≡ ok false
unfolding check_message
check_data_frame flags payload f h = rw (validate_grpc_frame-frame flags payload h) (
    rw (data_frame_ne_end flags payload f)
      (rw ((frame_kind flags payload (omega arith)).0) (ground arith)))

check_end_of_stream : check_message end_stream_header ≡ ok true
unfolding check_message validate_grpc_frame is_end_of_stream
check_end_of_stream = refl

-- Messages that carry data frames, with the client's end of stream behind them.
pub data Sends : List Arrival → Bytes → Type 0 where
  end_of_stream :
      {r : Reader} {as' : List Arrival}
      → Delivers r end_stream_header eof
      → Sends (result (opened binary r) ∷ as') []
  data_frame :
      {r : Reader} {as' : List Arrival} {bs bs' : Bytes} (flags : ℕ) (payload : Bytes)
      → flags < 128
      → IsU32 (length payload)
      → Delivers r (frame flags payload) eof
      → Sends as' bs
      → bs' ≡ frame flags payload ++ bs
      → Sends (result (opened binary r) ∷ as') bs'

-- The reader has no error, and `bs` is what it has still to hand out.
pub data Pending (s : WsReader) (bs : Bytes) : Type 0 where
  pending :
      (rest : Bytes) → s.err ≡ none → Sends s.arrivals rest → bs ≡ s.curr_msg ++ rest → Pending s bs

-- How a call of `Read` with a buffer of `size` bytes goes on from there.
pub data Progress (size : ℕ) (bs : Bytes) : Outcome → Type 0 where
  handed_out :
      (s' : WsReader) (front back : Bytes)
      → 0 < length front
      → length front ≤ size
      → bs ≡ front ++ back
      → Pending s' back
      → Progress size bs (returns s' front none)
  finished :
      (s' : WsReader)
      → bs ≡ []
      → ((n : ℕ) → read n s' ≡ returns s' [] (some eof))
      → Progress size bs (returns s' [] (some eof))

-- A message that is not empty is handed out from its front.
copy_out-Progress :
    (size : ℕ) (s : WsReader) (b : ℕ) (bs rest : Bytes)
    → 0 < size
    → s.curr_msg ≡ b ∷ bs
    → s.err ≡ none
    → Sends s.arrivals rest
    → Progress size ((b ∷ bs) ++ rest) (copy_out size s)
unfolding copy_out
copy_out-Progress size s b bs rest h m e a = rw m (
    handed_out _ (take size (b ∷ bs)) (drop size (b ∷ bs) ++ rest)
      (omega (arith, length-take size (b ∷ bs))) (omega (arith, length-take size (b ∷ bs)))
      (ap (λ x. x ++ rest) (sym (take-append-drop size (b ∷ bs)))
        ∙ append_assoc (take size (b ∷ bs)) (drop size (b ∷ bs)) rest)
      (pending rest e a refl))

copy_out-frame :
    (size : ℕ) (s : WsReader) (flags : ℕ) (payload : Bytes) {rest : Bytes}
    → 0 < size
    → s.curr_msg ≡ frame flags payload
    → s.err ≡ none
    → Sends s.arrivals rest
    → Progress size (frame flags payload ++ rest) (copy_out size s)
unfolding frame make_message_header
copy_out-frame size s flags payload {rest} h m e a = copy_out-Progress size s _ _ rest h m e a

failed_again :
    (s : WsReader) (e : Error) → s.err ≡ some e → (n : ℕ) → read n s ≡ returns s [] (some e)
unfolding read
failed_again s e h n = rw h

-- A whole message that passes the checks.
message_read_lem :
    (size : ℕ) (s : WsReader) (t : Transfer) {msg : Bytes} {b : Bool}
    → t.error ≡ none
    → t.bytes ≡ msg
    → check_message msg ≡ ok b
    → message_read size s t
      ≡ (if b then failing s eof else copy_out size (record s { curr_msg = msg }))
unfolding message_read message_checked
message_read_lem size s t e m c = ground arith

arrived_message :
    (size : ℕ) (s : WsReader) {r : Reader} {msg : Bytes} {b : Bool}
    → Delivers r msg eof
    → check_message msg ≡ ok b
    → arrived size s (result (opened binary r))
      ≡ (if b then failing s eof else copy_out size (record s { curr_msg = msg }))
unfolding arrived forward
arrived_message size s {r} d c =
    let (m, e) = read_all-Delivers d in message_read_lem size s (read_all r) e m c

do_read-Progress :
    (size : ℕ) (s : WsReader) {as' : List Arrival} {bs : Bytes}
    → 0 < size
    → s.err ≡ none
    → Sends as' bs
    → Progress size bs (do_read size s [] as')
unfolding do_read
do_read-Progress size s h e (end_of_stream {as' = as'} d) =
    rw (arrived_message size (record s { arrivals = as' }) d check_end_of_stream)
      (finished _ refl (failed_again _ eof refl))
do_read-Progress size s h e (data_frame {as' = as'} flags payload f n d a p) =
    rw (arrived_message size (record s { arrivals = as' }) d (check_data_frame flags payload f n)) (
      subst
        (λ x.
          Progress size x
            (copy_out size (record s { arrivals = as'; curr_msg = frame flags payload })))
        (sym p)
        (copy_out-frame size (record s { arrivals = as'; curr_msg = frame flags payload }) flags
          payload h refl e a))

read_no_error :
    (size : ℕ) (s : WsReader) → s.err ≡ none → read size s ≡ do_read size s s.curr_msg s.arrivals
unfolding read
read_no_error size s e = ground arith

-- With a buffer that is not empty, a `Read` on a request body of data frames hands out at least one
-- byte and at most what the buffer holds, of what is left in order; when nothing is left it returns
-- io.EOF, and so does every later call.
pub read-Progress :
    (size : ℕ) (s : WsReader) {bs : Bytes}
    → 0 < size
    → Pending s bs
    → Progress size bs (read size s)
read-Progress size s {bs} h (pending rest e a p) =
    rw (read_no_error size s e) (rw p (on_message s.curr_msg refl))
  where
    on_message :
        (m : Bytes) → s.curr_msg ≡ m → Progress size (m ++ rest) (do_read size s m s.arrivals)
    on_message [] q = do_read-Progress size s h e a
    on_message (b ∷ bs) q = unfold do_read in copy_out-Progress size s b bs rest h q e a

-- Reading to the end with one buffer size, as `io.ReadAll` would; `none` if the calls do not suffice, or
-- one of them blocks, panics or fails.
unfoldable pub drain : ℕ → ℕ → WsReader → Option Bytes
drain zero size s = none
drain (suc calls) size s = elim (read size s) [
  | returns s' bs none ↦ Option.map (◌++◌ bs) (drain calls size s')
  | returns s' bs (some eof) ↦ some bs
  | _ ↦ none
]

drain_step :
    (calls size : ℕ) {bs : Bytes} {o : Outcome}
    → Progress size bs o
    → ((s' : WsReader) (back : Bytes)
        → Pending s' back
        → length back < length bs
        → drain calls size s' ≡ some back)
    → ◌≡◌ {A = Option Bytes}
        (elim o [
          | returns s' c none ↦ Option.map (◌++◌ c) (drain calls size s')
          | returns s' c (some eof) ↦ some c
          | _ ↦ none
        ])
        (some bs)
drain_step calls size (handed_out s' front back lo hi e p) ih =
    rw (ih s' back p (omega (arith, ap length e, length-append front back))) (ap some (sym e))
drain_step calls size (finished s' e again) ih = ap some (sym e)

-- Read to the end with any buffer that is not empty, in one call more than it has bytes at most, the
-- body of a request of data frames is the frames in order.
pub drain-Pending :
    (calls size : ℕ) (s : WsReader) {bs : Bytes}
    → 0 < size
    → Pending s bs
    → length bs < calls
    → drain calls size s ≡ some bs
unfolding drain
drain-Pending zero size s h p l = absurd (omega arith)
drain-Pending (suc calls) size s h p l =
    drain_step calls size (read-Progress size s h p)
      (λ s' back p' lt. drain-Pending calls size s' h p' (omega arith))
