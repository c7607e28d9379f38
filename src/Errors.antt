-- ===== src/Errors.antt =====
-- The `error` values of the repository and of the standard library, and a call's outcome.
-- An error's text is not kept, only what it is made from.
use go_grpc_http.Common.{ℕ, ◌≡◌, Option, none, some, Bytes}

pub data Error : Type 0 where
  -- io.EOF and io.ErrUnexpectedEOF.
  eof unexpected_eof : Error
  -- internal/grpcproto: a header of another length than five, a message shorter than a header, a
  -- declared length that is not the actual one.
  bad_header_length : ℕ → Error
  short_frame : ℕ → Error
  length_mismatch : ℕ → ℕ → Error
  -- server and client: what a WebSocket message should have been.
  not_data_frame not_metadata_frame invalid_message : Error
  wrong_message_type compressed_metadata message_after_trailers : Error
  -- internal/grpcweb: `errExtraData`, `ErrNoDecompressor`, and the checks of `readFullTrailers`.
  extra_data : ℕ → Error
  no_decompressor incomplete_trailers : Error
  short_trailers : ℕ → ℕ → Error
  -- net/textproto, a header that is malformed.
  malformed_mime : Error
  -- internal/pipeconn.
  listener_closed already_closed : Error
  -- An error of code outside the repository, and `errors.Wrap`.
  foreign : ℕ → Error
  wrapped : Bytes → Error → Error
  -- An error that is its text, and one whose text is followed by that of another error.
  message : Bytes → Error
  message_of : Bytes → Error → Error
  -- What a failed dial adds of the response.
  with_response : Error → Error → Error

-- `panic` is no Go value: an index out of range.
pub data Result {ℓ} (A : Type ℓ) : Type ℓ where
  ok : A → Result A
  err : Error → Result A
  panic : Result A

infixl 5 ◌>>=◌
abbrev pub ◌>>=◌ {ℓ κ} : {A : Type ℓ} {B : Type κ} → Result A → (A → Result B) → Result B
ok a >>= f = f a
err e >>= f = err e
panic >>= f = panic

-- The `error` result of a call that returns nothing else.
abbrev pub error_of {ℓ} : {A : Type ℓ} → Result A → Option Error
error_of (ok _) = none
error_of (err e) = some e
error_of panic = none

pub ok-injective {ℓ} : {A : Type ℓ} {a b : A} → ok a ≡ ok b → a ≡ b
ok-injective h = cc

-- What a call that does not panic returns.
pub data Answer {ℓ} (A : Type ℓ) : Type ℓ where
  gives : A → Answer A
  fails : Error → Answer A
