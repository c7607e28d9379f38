-- ===== src/Grpcwebsocket/Sending.antt =====
-- `Write` against the list of messages that its input is.
use go_grpc_http.Common.{
  ℕ, zero, suc, ◌≤◌, ◌<◌, Option, none, some, List, [], ◌∷◌, ◌++◌, length, Bytes, ◌≡◌, refl, ap,
  subst, ◌∙◌, inl, inr, arith, All, length-append, append_assoc, take-append_length,
  drop-append_length,
}
use go_grpc_http.Errors.{Error, eof, unexpected_eof}
use go_grpc_http.Io.{Reader, Transfer, copy_n, copy_n_full, full_error}
use go_grpc_http.Io.Delivery.{Delivers, ended, failed, last, chunk, copy_n_cases, unless_eof}
use go_grpc_http.Proto.{IsByte, IsU32, make_message_header}
use go_grpc_http.Proto.Headers.{parse_message_header-make}
use go_grpc_http.Proto.Frames.{frame, length-frame}
use go_grpc_http.Grpcwebsocket.{
  Sent, stop, total, round, write_loop, write, payload_error, header_read, header_parsed,
  payload_read, sent,
}
use go_grpc_http.Grpcwebsocket.Splitting.{
  Partial, cut_header, cut_payload, Splits, done, message, split_loop,
}

-- What `Write` returns behind the last whole frame.
abbrev pub tail_error : Bytes → Error → Option Error
tail_error [] e = unless_eof e
tail_error (_ ∷ _) eof = some unexpected_eof
tail_error (_ ∷ _) e = some e

-- A header that is there is read whole, and nothing behind it.
pub copy_header :
    {r : Reader} {e : Error} (flags n : ℕ) (bs : Bytes)
    → Delivers r (make_message_header flags n ++ bs) e
    → (r' : Reader) × Delivers r' bs e
      × (copy_n_full 5 r ≡ record { bytes = make_message_header flags n; error = none; rest = r' })
unfolding copy_n_full make_message_header
copy_header flags n bs d = elim (copy_n_cases 5 d) [
  | inl (r', le, more, p) ↦ (r', more, rw p)
  | inr (r', lt, p) ↦ absurd (omega arith)
]

-- Fewer than five bytes are an error: io.EOF where there is none.
copy_cut_header :
    {r : Reader} {bs : Bytes} {e : Error}
    → Delivers r bs e
    → length bs < 5
    → (copy_n_full 5 r).error ≡ full_error bs (some e)
unfolding copy_n_full
copy_cut_header d h = elim (copy_n_cases 5 d) [
  | inl (r', le, more, p) ↦ absurd (omega arith)
  | inr (r', lt, p) ↦ rw p
]

payload_cut :
    (flags n : ℕ) (part : Bytes) (e : Error)
    → some (payload_error e) ≡ tail_error (make_message_header flags n ++ part) e
unfolding make_message_header
payload_cut flags n part eof = refl
payload_cut flags n part _ = refl

-- What follows a send that did not fail.
abbrev pub unless_failed : {Conn : Type 0} → Sent Conn → Sent Conn → Sent Conn
unless_failed s next = elim s.1 [ some e ↦ s | none ↦ next ]

module _ {Conn : Type 0} (conn_write : Conn → Bytes → Sent Conn) where
  -- The specification: send the messages in order up to the first failure, then return `final`.
  abbrev pub send_all : Conn → List Bytes → Option Error → Sent Conn
  send_all conn [] final = (conn, final)
  send_all conn (m ∷ ms) final =
      let s = conn_write conn m in unless_failed s (send_all s.0 ms final)

  round_header :
      (conn : Conn) {r : Reader} {e : Error} (flags n : ℕ) (bs : Bytes)
      → IsU32 n
      → Delivers r (make_message_header flags n ++ bs) e
      → (r' : Reader) × Delivers r' bs e
        × (round conn_write conn r
            ≡ payload_read conn_write conn (make_message_header flags n) (copy_n n r'))
  unfolding round header_parsed
  round_header conn flags n bs h d =
      let (r', d', p) = copy_header flags n bs d in
      let hdr = make_message_header flags n in
      (
        r',
        d',
        ap (header_read conn_write conn) p
            ∙ ap (header_parsed conn_write conn (record { bytes = hdr; error = none; rest = r' }))
                (parse_message_header-make flags n h),
      )

  -- The input ends inside a frame, or behind the last one: nothing is sent.
  -- An error in front of a payload, by whether the header was read.
  header_cut :
      (conn : Conn) (t : Transfer) (bs : Bytes) (e : Error)
      → t.error ≡ full_error bs (some e)
      → header_read conn_write conn t ≡ stop (conn, tail_error bs e)
  unfolding header_read
  header_cut conn t bs e p = rw p (by_bytes bs e)
    where
      by_bytes :
          (bs : Bytes) (e : Error)
          → header_read conn_write conn (record t { error = full_error bs (some e) })
            ≡ stop (conn, tail_error bs e)
      by_bytes bs e = ground arith

  round-Partial :
      (conn : Conn) {r : Reader} {bs : Bytes} {e : Error}
      → Delivers r bs e
      → Partial bs
      → round conn_write conn r ≡ stop (conn, tail_error bs e)
  unfolding round payload_read
  round-Partial conn {bs = bs} {e = e} d (cut_header h) =
      header_cut conn _ bs e (copy_cut_header d h)
  round-Partial conn {r} {bs} {e} d (cut_payload flags n part h lt p) =
      let (r', d', same) = round_header conn flags n part h (subst (λ b. Delivers r b e) p d) in
      same ∙ elim (copy_n_cases n d') [
        | inl (r'', le, more, q) ↦ absurd (omega arith)
        | inr (r'', lt, q) ↦ rw (q, p) (ap (λ x. stop (conn, x)) (payload_cut flags n part e))
      ]

  round-frame :
      (conn : Conn) {r : Reader} {bs : Bytes} {e : Error} (flags : ℕ) (payload : Bytes)
      → IsU32 (length payload)
      → Delivers r (frame flags payload ++ bs) e
      → (r' : Reader) × Delivers r' bs e
        × (round conn_write conn r ≡ sent conn_write (conn_write conn (frame flags payload)) r')
  unfolding round payload_read frame
  round-frame conn {r} {bs} {e} flags payload h d =
      let hdr = make_message_header flags (length payload) in
      let (r', d', same) =
        round_header conn flags (length payload) (payload ++ bs) h (rw append_assoc at d) in
      elim (copy_n_cases (length payload) d') [
        | inl (r'', le, more, q) ↦ (
          r'',
          rw (drop-append_length (length payload) payload bs refl) at more,
          same ∙ rw q (rw (take-append_length (length payload) payload bs refl)),
        )
        | inr (r'', lt, q) ↦ absurd (omega (arith, length-append payload bs))
      ]

  write_loop-stop :
      (fuel : ℕ) (conn : Conn) (r : Reader) {s : Sent Conn}
      → round conn_write conn r ≡ stop s
      → write_loop conn_write (suc fuel) conn r ≡ some s
  unfolding write_loop
  write_loop-stop fuel conn r p = rw (p, write_loop)

  write_loop-sent :
      (fuel : ℕ) (conn : Conn) (r r' : Reader) (s final : Sent Conn)
      → round conn_write conn r ≡ sent conn_write s r'
      → (s.1 ≡ none → write_loop conn_write fuel s.0 r' ≡ some final)
      → write_loop conn_write (suc fuel) conn r ≡ some (unless_failed s final)
  unfolding write_loop sent
  write_loop-sent fuel conn r r' (conn', none) final p later = rw (p, write_loop) (later refl)
  write_loop-sent fuel conn r r' (conn', some e) final p later = rw (p, write_loop)

  -- `Write` sends the frames of its input in order, each as one message, up to the first failure of the
  -- connection. Without one it returns what `tail_error` says of the bytes behind the last frame.
  write_loop-Splits :
      (fuel : ℕ) (conn : Conn) {r : Reader} {bs tail : Bytes} {msgs : List Bytes} {e : Error}
      → Splits bs msgs tail
      → Delivers r bs e
      → length bs < fuel
      → write_loop conn_write fuel conn r ≡ some (send_all conn msgs (tail_error tail e))
  write_loop-Splits zero conn s d h = absurd (omega arith)
  write_loop-Splits (suc fuel) conn {r} (done p) d h =
      write_loop-stop fuel conn r (round-Partial conn d p)
  write_loop-Splits (suc fuel) conn {r} {e = e} (message {bs} flags payload n s p) d h =
      let (r', d', same) = round-frame conn flags payload n (subst (λ b. Delivers r b e) p d) in
      write_loop-sent fuel conn r r' (conn_write conn (frame flags payload)) _ same (λ _.
        write_loop-Splits fuel (conn_write conn (frame flags payload)).0 s d' (
          omega (
            arith,
            ap length p,
            length-append (frame flags payload) bs,
            length-frame flags payload,
          )))

-- No more bytes are delivered than the chunks hold.
length-Delivers : {r : Reader} {bs : Bytes} {e : Error} → Delivers r bs e → length bs ≤ total r
length-Delivers ended = omega arith
length-Delivers failed = omega arith
length-Delivers (last {r} {c} d) = omega (arith, length-Delivers d)
length-Delivers (chunk {r} {c} {bs} d p) =
    omega (arith, ap length p, length-append c bs, length-Delivers d)

-- The loop with the fuel that `write` gives it.
pub write-of_Splits :
    {Conn : Type 0} (conn_write : Conn → Bytes → Sent Conn) (conn : Conn) {r : Reader}
    {bs tail : Bytes} {msgs : List Bytes} {e : Error}
    → Splits bs msgs tail
    → Delivers r bs e
    → write conn_write conn r ≡ some (send_all conn_write conn msgs (tail_error tail e))
unfolding write
write-of_Splits conn_write conn {r} s d =
    write_loop-Splits conn_write (suc (total r)) conn s d (omega (arith, length-Delivers d))

-- For every reader over bytes, whatever its chunks and its last error, `Write` returns: its input is a
-- list of frames with a rest that begins none, the frames are sent in order, each as one message, up to
-- the first failure of the connection, whose error is returned, and without a failure the result is
-- nil after io.EOF with no rest, io.ErrUnexpectedEOF after io.EOF inside a frame, or the reader's error.
pub write-Splits :
    {Conn : Type 0} (conn_write : Conn → Bytes → Sent Conn) (conn : Conn) {r : Reader} {bs : Bytes}
    {e : Error}
    → Delivers r bs e
    → All IsByte bs
    → (msgs : List Bytes) × (tail : Bytes) × Splits bs msgs tail
      × (write conn_write conn r ≡ some (send_all conn_write conn msgs (tail_error tail e)))
write-Splits conn_write conn {bs = bs} d h =
    let (msgs, tail, s) = split_loop (suc (length bs)) bs (omega arith) h in
    (msgs, tail, s, write-of_Splits conn_write conn s d)
