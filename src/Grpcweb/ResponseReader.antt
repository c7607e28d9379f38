-- ===== src/Grpcweb/ResponseReader.antt =====
-- internal/grpcweb/response_reader.go: `Read` turns a gRPC-Web response back into gRPC framing, and puts
-- its trailer frame into the response's trailers. With internal/ioutils/counting_reader.go, which
-- counts the bytes of the trailer frame that are read.
--
-- The body is a reader as in Io; an error other than io.EOF comes again. A nil map of trailers stands
-- for an empty one. The decompressor is code of the caller: a function of the limited reader's bytes and
-- of the error behind them.
pub mod Trailers
pub mod Phases
pub mod Trailing
pub mod Handed
pub mod Steps
pub mod Delivery
pub mod Unterminated
pub mod Response
use go_grpc_http.Common.{
  ℕ, zero, suc, ◌+◌, ◌-◌, ◌%◌, Bool, true, false, not, ◌&&◌, ◌||◌, Option, none, some, List, [],
  ◌∷◌, ◌++◌, ltb, ◌==◌, if◌then◌else◌, length, take, drop, bit_and, Bytes, codes,
}
use mathlib.Core.Option
use go_grpc_http.Errors.{
  Error, eof, unexpected_eof, extra_data, no_decompressor, incomplete_trailers, short_trailers,
}
use go_grpc_http.Io.{Reader, Transfer, copy_n, copy_n_full}
use go_grpc_http.Io
use go_grpc_http.Http.{Header, values, store, or_empty, canonical_header_key}
use go_grpc_http.Http.Mime.{Mime, parsed, refused, read_mime_header}
use go_grpc_http.Http.Wire.{is_empty}
use go_grpc_http.Grpcweb.Consume.{Cursor, start, consume, announced}

abbrev pub compressed_flag : ℕ
compressed_flag = 1

-- What a decompressor makes of the trailer frame: its output with the error behind it, how many bytes it
-- took, and what its `Close` returns.
pub record Decompressed : Type 0 where
  pub output : Bytes
  pub ending : Error
  pub taken : ℕ
  pub close_error : Option Error

abbrev pub Decompressor : Type 0
Decompressor = Bytes → Error → Decompressed

pub record ResponseReader : Type 0 where
  pub body : Reader
  pub trailers : Header
  pub err : Option Error
  pub cursor : Cursor
  pub partial_trailer_data : Bytes
  pub has_read_data : Bool
  pub has_read_trailers : Bool

-- `NewResponseReader`.
abbrev pub new_response_reader : Reader → Header → ResponseReader
new_response_reader body trailers = record {
  body = body;
  trailers = trailers;
  err = none;
  cursor = start;
  partial_trailer_data = [];
  has_read_data = false;
  has_read_trailers = false;
}

-- `populateTrailers`.
unfoldable pub populate_trailers : Header → Header → Header
populate_trailers trailers [] = trailers
populate_trailers trailers ((k, vs) ∷ h) =
    let key = canonical_header_key k in
    populate_trailers (store trailers key (or_empty (values trailers key) ++ vs)) h

-- The error behind a limited reader: io.EOF at its limit.
abbrev pub ending_of : Option Error → Error
ending_of none = eof
ending_of (some e) = e

-- The trailers' text: at io.EOF the reader goes on to the blank line, and then ends.
abbrev pub terminated : Bytes → Error → Bytes
terminated text eof = text ++ codes "\r\n"
terminated text _ = text

abbrev pub uncompressed : Decompressor
uncompressed text e = record { output = text; ending = e; taken = length text; close_error = none }

-- `readFullTrailers` behind `Peek`.
trailers_read : ℕ → Bytes → Decompressed → Header → ResponseReader → ResponseReader × Option Error
trailers_read frame_len partial d h r = elim d.close_error [
  | some e ↦ (r, some e)
  | none ↦
      let r' = record r { trailers = populate_trailers r.trailers h } in
      if not (d.taken == frame_len)
      then (r, some (short_trailers d.taken frame_len))
      else if ltb (5 + frame_len) (length partial)
      then (r', some (extra_data (length partial - (5 + frame_len))))
      else (r', none)
]

-- `Peek` behind `ReadMIMEHeader`: no byte may be left, and the text must end with io.EOF.
peeked : ℕ → Bytes → Decompressed → Error → Mime → ResponseReader → ResponseReader × Option Error
peeked frame_len partial d ending (refused e) r = (r, some e)
peeked frame_len partial d ending (parsed h (l ∷ ls)) r = (r, some incomplete_trailers)
peeked frame_len partial d eof (parsed h []) r = trailers_read frame_len partial d h r
peeked frame_len partial d ending (parsed h []) r = (r, some ending)

-- `readFullTrailers` on the bytes of the frame.
frame_read : ℕ → Bytes → Decompressed → ResponseReader → ResponseReader × Option Error
unfolding peeked trailers_read
frame_read frame_len partial d r =
    peeked frame_len partial d d.ending (read_mime_header d.ending (terminated d.output d.ending)) r

abbrev pub flag_set : ℕ → Bytes → Bool
flag_set mask [] = false
flag_set mask (b ∷ _) = not (bit_and b mask == 0)

-- A call of `Read` on the body.
abbrev pub body_read : Transfer → ResponseReader → ResponseReader
body_read t r = record r {
  body = t.rest;
  has_read_data = r.has_read_data || not (is_empty t.bytes);
}

-- `doRead` behind the trailers: what comes then is passed on.
passed_on : ℕ → ResponseReader × Option Error → ResponseReader × Bytes × Option Error
passed_on size (r, some e) = (r, [], some e)
passed_on size (r, none) =
    let t = Io.read size r.body in
    (
      body_read t (record r { has_read_trailers = true; partial_trailer_data = [] }),
      t.bytes,
      t.error,
    )

-- `adjustResult`.
abbrev pub adjust_error : ResponseReader → Bytes → Option Error → Option Error
adjust_error r [] e = e
adjust_error r (b ∷ bs) none = some (extra_data (length (b ∷ bs)))
adjust_error r (b ∷ bs) (some eof) = some (extra_data (length (b ∷ bs)))
adjust_error r (b ∷ bs) (some e) = some e

abbrev pub pending_error : ResponseReader → Option Error → Option Error
pending_error r (some eof) = if is_empty r.partial_trailer_data then some unexpected_eof else none
pending_error r e = e

unfoldable pub adjust_result : ResponseReader → Bytes → Option Error → Bytes × Option Error
adjust_result r bs e =
    if r.has_read_trailers
    then ([], adjust_error r bs e)
    else if r.has_read_data
    then (bs, pending_error r e)
    else (bs, e)

-- `Read(buf)` with `len(buf) == size` keeps its error.
abbrev pub kept : ResponseReader → Bytes × Option Error → ResponseReader × Bytes × Option Error
kept r (bs, none) = (r, bs, none)
kept r (bs, some e) = (record r { err = some e }, bs, some e)

module _ (decompressor : Option Decompressor) where
  -- `readFullTrailers` on the bytes up to the frame's limit.
  limited_read : Bytes → Bytes → Transfer → ResponseReader → ResponseReader × Option Error
  unfolding frame_read
  limited_read partial header limited r =
      let ending = ending_of limited.error in
      let r' = record r { body = limited.rest } in
      if flag_set compressed_flag header
      then elim decompressor [
        | none ↦ (r, some no_decompressor)
        | some d ↦ frame_read (announced header) partial (d limited.bytes ending) r'
      ]
      else frame_read (announced header) partial (uncompressed limited.bytes ending) r'

  -- `readFullTrailers` behind the frame's header.
  header_checked : Bytes → Transfer → ResponseReader → ResponseReader × Option Error
  unfolding limited_read
  header_checked partial header r =
      let r' = record r { body = header.rest } in
      elim header.error [
        | some e ↦ (r', some e)
        | none ↦ limited_read partial header.bytes (copy_n (announced header.bytes) header.rest) r'
      ]

  -- `readFullTrailers`, on the stored data and the body behind it.
  unfoldable pub read_full_trailers : ResponseReader → ResponseReader × Option Error
  unfolding header_checked
  read_full_trailers r =
      let partial = r.partial_trailer_data in
      header_checked partial (copy_n_full 5 ((partial, none) ∷ r.body)) r

  -- `doRead` where trailer data is stored.
  unfoldable pub read_behind_trailers : ℕ → ResponseReader → ResponseReader × Bytes × Option Error
  unfolding passed_on
  read_behind_trailers size r = passed_on size (read_full_trailers r)

  -- `doRead` behind `consume`: where the buffer has trailers only, it is repeated with a buffer of their
  -- size.
  pub handed : Transfer → ℕ → ResponseReader → ResponseReader × Bytes × Option Error
  unfolding read_behind_trailers
  handed t n r =
      if n == 0 && not (is_empty r.partial_trailer_data)
      then read_behind_trailers (length t.bytes) r
      else (r, take n t.bytes, t.error)

  unfoldable pub consumed :
      Transfer → ResponseReader → Cursor × ℕ → ResponseReader × Bytes × Option Error
  unfolding handed
  consumed t r (c, n) =
      handed t n
        (record r { cursor = c; partial_trailer_data = r.partial_trailer_data ++ drop n t.bytes })

  -- `doRead` where none is stored. `none` is no Go value: the fuel of `consume` ran out.
  unfoldable pub read_data :
      Transfer → ResponseReader → Option (ResponseReader × Bytes × Option Error)
  unfolding consumed
  read_data t r =
      if r.has_read_trailers
      then some (r, t.bytes, t.error)
      else Option.map (consumed t r) (consume r.cursor t.bytes)

  unfoldable pub do_read : ℕ → ResponseReader → Option (ResponseReader × Bytes × Option Error)
  unfolding read_behind_trailers read_data
  do_read size r =
      let t = Io.read size r.body in
      if not (is_empty r.partial_trailer_data)
      then some (read_behind_trailers size r)
      else read_data t (body_read t r)

  unfoldable pub read : ℕ → ResponseReader → Option (ResponseReader × Bytes × Option Error)
  unfolding do_read adjust_result
  read size r = elim r.err [
    | some e ↦ some (r, [], some e)
    | none ↦ Option.map (λ o. kept o.0 (adjust_result o.0 o.1 o.2)) (do_read size r)
  ]
