-- ===== src/Io.antt =====
-- Readers, and the functions of `io` and of internal/ioutils that the repository reads through.
--
-- An `io.Reader` is the list of the results that its calls of `Read` will give: a chunk with the error
-- that comes with it, and io.EOF behind the list. A chunk that is longer than the caller's buffer is
-- handed out in pieces, and its error comes with the last one.
pub mod Delivery
pub mod Reading
pub mod Limited
use go_grpc_http.Common.{
  ℕ, zero, suc, ◌+◌, ◌-◌, Bool, true, false, not, ◌&&◌, Option, none, some, List, [], ◌∷◌, ◌++◌,
  ltb, leb, ◌==◌, if◌then◌else◌, length, take, drop, Bytes,
}
use go_grpc_http.Errors.{Error, eof, unexpected_eof}

abbrev pub Reader : Type 0
Reader = List (Bytes × Option Error)

-- What a call returns: the bytes that it put into the buffer or the destination, its error, and the
-- reader behind it.
pub record Transfer : Type 0 where
  pub bytes : Bytes
  pub error : Option Error
  pub rest : Reader

-- `Read(buf)` with `len(buf) == size`.
unfoldable pub read : ℕ → Reader → Transfer
read size [] = record { bytes = []; error = some eof; rest = [] }
read size ((chunk, e) ∷ r) =
    if leb (length chunk) size
    then record { bytes = chunk; error = e; rest = r }
    else record { bytes = take size chunk; error = none; rest = (drop size chunk, e) ∷ r }

-- Puts bytes in front of what a later part transferred.
abbrev pub behind : Bytes → Transfer → Transfer
behind front t = record t { bytes = front ++ t.bytes }

-- `io.CopyN(dst, src, n)` into a buffer: an error that comes with the last of the `n` bytes is dropped.
unfoldable pub copy_n : ℕ → Reader → Transfer
copy_n zero r = record { bytes = []; error = none; rest = r }
copy_n (suc n) [] = record { bytes = []; error = some eof; rest = [] }
copy_n (suc n) ((chunk, e) ∷ r) =
    let more = behind chunk (copy_n (suc n - length chunk) r) in
    if ltb (suc n) (length chunk)
    then record { bytes = take (suc n) chunk; error = none; rest = (drop (suc n) chunk, e) ∷ r }
    else if length chunk == suc n
    then record { bytes = chunk; error = none; rest = r }
    else elim e [ none ↦ more | some x ↦ record { bytes = chunk; error = some x; rest = r } ]

-- `ioutils.CopyNFull`.
abbrev pub full_error : Bytes → Option Error → Option Error
full_error [] e = e
full_error (_ ∷ _) none = none
full_error (_ ∷ _) (some eof) = some unexpected_eof
full_error (_ ∷ _) (some e) = some e

unfoldable pub copy_n_full : ℕ → Reader → Transfer
copy_n_full n r = let t = copy_n n r in record t { error = full_error t.bytes t.error }

-- `io.ReadAll`, and `ReadFrom` of a buffer: everything up to the first error, which is none for io.EOF.
unfoldable pub read_all : Reader → Transfer
read_all [] = record { bytes = []; error = none; rest = [] }
read_all ((chunk, none) ∷ r) = behind chunk (read_all r)
read_all ((chunk, some eof) ∷ r) = record { bytes = chunk; error = none; rest = r }
read_all ((chunk, some e) ∷ r) = record { bytes = chunk; error = some e; rest = r }

-- `io.ReadAll` of an `io.LimitReader` with `n` bytes: behind them comes io.EOF.
unfoldable pub read_all_limited : ℕ → Reader → Transfer
read_all_limited zero r = record { bytes = []; error = none; rest = r }
read_all_limited (suc n) [] = record { bytes = []; error = none; rest = [] }
read_all_limited (suc n) ((chunk, e) ∷ r) =
    let more = behind chunk (read_all_limited (suc n - length chunk) r) in
    if ltb (suc n) (length chunk)
    then record { bytes = take (suc n) chunk; error = none; rest = (drop (suc n) chunk, e) ∷ r }
    else elim e [
      | none ↦ more
      | some eof ↦ record { bytes = chunk; error = none; rest = r }
      | some x ↦ record { bytes = chunk; error = some x; rest = r }
    ]
