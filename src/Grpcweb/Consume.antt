-- ===== src/Grpcweb/Consume.antt =====
-- internal/grpcweb/response_reader.go, `consume`: how much of a buffer is regular frame data, up to the
-- first byte of a trailer frame.
pub mod Automaton
pub mod Bytewise
pub mod Framing
pub mod Chunks
use go_grpc_http.Common.{
  ℕ, zero, suc, ◌+◌, ◌-◌, Bool, true, false, not, ◌&&◌, Option, none, some, List, [], ◌∷◌, ◌++◌,
  ltb, ◌==◌, if◌then◌else◌, length, take, drop, bit_and, Bytes,
}
use go_grpc_http.Errors.{Result, ok, err, panic}
use go_grpc_http.Proto.{be_uint32}

abbrev pub trailer_message_flag : ℕ
trailer_message_flag = 128

abbrev pub complete_header_len : ℕ
complete_header_len = 5

-- The fields of `responseReader` that `consume` changes. `currMessageRemaining` is an int64 that holds
-- a uint32 at most, so it cannot wrap.
pub record Cursor : Type 0 where
  pub curr_message_remaining : ℕ
  pub curr_partial_msg_header : Bytes

abbrev pub start : Cursor
start = record { curr_message_remaining = 0; curr_partial_msg_header = [] }

-- `if x > len(buf) { x = len(buf) }`
abbrev pub at_most : ℕ → ℕ → ℕ
at_most x n = if ltb n x then n else x

-- `binary.BigEndian.Uint32(header[1:])`; the header has five bytes, so this is no panic.
abbrev pub announced : Bytes → ℕ
announced header = elim (be_uint32 (drop 1 header)) [ ok n ↦ n | _ ↦ 0 ]

-- The end of a round: a complete header starts a message.
unfoldable pub header_appended : Cursor → Cursor
header_appended c =
    if length c.curr_partial_msg_header == complete_header_len
    then record {
      curr_message_remaining = announced c.curr_partial_msg_header;
      curr_partial_msg_header = [];
    }
    else c

-- The second half of a round, on what follows the current message. `none` is `break`.
unfoldable pub read_header : Cursor → Bytes → Option (Cursor × ℕ × Bytes)
unfolding header_appended
read_header c [] = none
read_header c (b ∷ bs) =
    let k = at_most (complete_header_len - length c.curr_partial_msg_header) (length (b ∷ bs)) in
    if length c.curr_partial_msg_header == 0 && not (bit_and b trailer_message_flag == 0)
    then none
    else some (
      header_appended
          (record c { curr_partial_msg_header = c.curr_partial_msg_header ++ take k (b ∷ bs) }),
      k,
      drop k (b ∷ bs),
    )

-- The loop, on fuel: `none` is no Go value, and means that the fuel ran out.
unfoldable pub consume_loop : ℕ → Cursor → Bytes → ℕ → Option (Cursor × ℕ)
consume_loop fuel c [] n = some (c, n)
consume_loop zero c (b ∷ bs) n = none
consume_loop (suc fuel) c (b ∷ bs) n =
    let k = at_most c.curr_message_remaining (length (b ∷ bs)) in
    let c' = record c { curr_message_remaining = c.curr_message_remaining - k } in
    elim (read_header c' (drop k (b ∷ bs))) [
      | none ↦ some (c', n + k)
      | some (c'', j, rest) ↦ consume_loop fuel c'' rest (n + k + j)
    ]

-- `consume`: the reader's new cursor, and the number of bytes without any trailer frame data.
unfoldable pub consume : Cursor → Bytes → Option (Cursor × ℕ)
unfolding consume_loop read_header
consume c buf = consume_loop (length buf) c buf 0
