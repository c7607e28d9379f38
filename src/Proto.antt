-- ===== src/Proto.antt =====
-- internal/grpcproto/message_header.go and utils.go: the five bytes in front of a gRPC message, and
-- the tests on a whole frame. A byte is a number below 256, a `uint32` one below 2 ^ 32, and an `int`
-- has 64 bits, so `int(length)` does not wrap.
pub mod Headers
pub mod Frames
pub mod Percent
use go_grpc_http.Common.{
  ℕ, ◌+◌, ◌-◌, ◌*◌, ◌/◌, ◌%◌, ◌^◌, ◌<◌, Bool, true, false, not, List, [], ◌∷◌, ◌++◌, ltb, ◌==◌,
  if◌then◌else◌, length, take, drop, equal, bit_and, Bytes,
}
use go_grpc_http.Errors.{
  Result, ok, err, panic, ◌>>=◌, bad_header_length, short_frame, length_mismatch,
}

abbrev pub message_header_length : ℕ
message_header_length = 5

abbrev pub metadata_mask : ℕ
metadata_mask = 128

abbrev pub compression_mask : ℕ
compression_mask = 1

abbrev pub metadata_flags : ℕ
metadata_flags = metadata_mask

abbrev pub end_stream_header : Bytes
end_stream_header = metadata_mask ∷ 0 ∷ 0 ∷ 0 ∷ 0 ∷ []

abbrev pub IsByte : ℕ → Type 0
IsByte b = b < 256

abbrev pub IsU32 : ℕ → Type 0
IsU32 n = n < 2 ^ 32

-- `binary.BigEndian.Uint32`, which panics on fewer than four bytes.
unfoldable pub be_uint32 : Bytes → Result ℕ
be_uint32 (a ∷ b ∷ c ∷ d ∷ rest) = ok (a * 16777216 + b * 65536 + c * 256 + d)
be_uint32 _ = panic

-- What `binary.BigEndian.PutUint32` writes.
unfoldable pub put_be_uint32 : ℕ → Bytes
put_be_uint32 n = (n / 16777216 % 256) ∷ (n / 65536 % 256) ∷ (n / 256 % 256) ∷ (n % 256) ∷ []

-- `(flags, length)` of a header whose length was tested.
header_fields : Bytes → Result (ℕ × ℕ)
header_fields [] = panic
header_fields (flags ∷ rest) = do n ← be_uint32 rest; ok (flags, n)

unfoldable pub parse_message_header : Bytes → Result (ℕ × ℕ)
unfolding header_fields be_uint32
parse_message_header header =
    if not (length header == message_header_length)
    then err (bad_header_length (length header))
    else header_fields header

unfoldable pub make_message_header : ℕ → ℕ → Bytes
unfolding put_be_uint32
make_message_header flags n = flags ∷ put_be_uint32 n

-- `msg[0] & mask`, which panics on an empty message.
flag_bits : ℕ → Bytes → Result ℕ
flag_bits mask [] = panic
flag_bits mask (b ∷ _) = ok (bit_and b mask)

unfoldable pub is_data_frame : Bytes → Result Bool
unfolding flag_bits
is_data_frame msg = do v ← flag_bits metadata_mask msg; ok (v == 0)

unfoldable pub is_metadata_frame : Bytes → Result Bool
unfolding flag_bits
is_metadata_frame msg = do v ← flag_bits metadata_mask msg; ok (not (v == 0))

unfoldable pub is_compressed : Bytes → Result Bool
unfolding flag_bits
is_compressed msg = do v ← flag_bits compression_mask msg; ok (not (v == 0))

-- The second half of `ValidateGRPCFrame`: the declared length against the actual one.
check_length : Bytes → ℕ × ℕ → Result (Unit {0})
check_length msg (_, n) =
    if not (length msg == message_header_length + n)
    then err (length_mismatch n (length msg - message_header_length))
    else ok tt

unfoldable pub validate_grpc_frame : Bytes → Result (Unit {0})
unfolding parse_message_header check_length
validate_grpc_frame msg =
    if ltb (length msg) message_header_length
    then err (short_frame (length msg))
    else parse_message_header (take message_header_length msg) >>= check_length msg

unfoldable pub is_end_of_stream : Bytes → Bool
unfolding equal
is_end_of_stream msg = equal msg end_stream_header
