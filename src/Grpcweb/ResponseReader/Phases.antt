-- ===== src/Grpcweb/ResponseReader/Phases.antt =====
-- What a call of `Read` does in front of, inside and behind the trailer frame.
use go_grpc_http.Common.{
  ℕ, ◌+◌, ◌<◌, ◌≤◌, Bool, true, false, not, ◌||◌, Option, none, some, [], ◌∷◌, ◌++◌, length, Bytes,
  ◌≡◌, refl, ◌⊎◌, inl, inr, arith, All,
}
use go_grpc_http.Errors.{Error, eof}
use go_grpc_http.Io.Delivery.{Delivers}
use go_grpc_http.Io.Reading.{weight}
use go_grpc_http.Proto.{IsByte}
use go_grpc_http.Proto.Frames.{frame}
use go_grpc_http.Http.{Header}
use go_grpc_http.Http.Wire.{is_empty}
use go_grpc_http.Grpcweb.Consume.{start}
use go_grpc_http.Grpcweb.Consume.Automaton.{scan, IsCursor}
use go_grpc_http.Grpcweb.ResponseReader.{
  ResponseReader, Decompressor, populate_trailers, adjust_result, kept,
}

-- What a call of `Read` returns.
abbrev pub Outcome : Type 0
Outcome = Option (ResponseReader × Bytes × Option Error)

-- `Read` behind `doRead`.
abbrev pub adjusted : ResponseReader × Bytes × Option Error → Outcome
adjusted o = some (kept o.0 (adjust_result o.0 o.1 o.2))

pub adjust_behind :
    (r : ResponseReader) (e : Option Error)
    → r.has_read_trailers ≡ true
    → adjust_result r [] e ≡ ([], e)
unfolding adjust_result
adjust_behind r e h = ground arith

pub not_empty : (p : Bytes) → 0 < length p → is_empty p ≡ false
not_empty [] h = absurd (omega arith)
not_empty (b ∷ bs) h = refl

pub has_data : (b : Bool) (c : Bytes) → 0 < length c → (b || not (is_empty c)) ≡ true
has_data true c h = refl
has_data false [] h = absurd (omega arith)
has_data false (x ∷ c) h = refl

pub adjust_begun :
    (r : ResponseReader) (bs : Bytes) (e : Option Error)
    → r.has_read_trailers ≡ false
    → r.has_read_data ≡ true
    → is_empty r.partial_trailer_data ≡ false
    → (e ≡ none) ⊎ (e ≡ some eof)
    → adjust_result r bs e ≡ (bs, none)
unfolding adjust_result
adjust_begun r bs e t d p (inl h) = ground arith
adjust_begun r bs e t d p (inr h) = rw h (ground arith)

pub adjust_data :
    (r : ResponseReader) (bs : Bytes)
    → r.has_read_trailers ≡ false
    → adjust_result r bs none ≡ (bs, none)
unfolding adjust_result
adjust_data r bs t = ground arith

-- The trailer frame's text, and the header that it parses to.
module _ (decompressor : Option Decompressor) (payload : Bytes) (h : Header) where
  -- How far the reading is, with the data that is still to be handed out: in the data frames, inside
  -- the trailer frame, or behind it. `goal` is what the trailers are to be in the end.
  pub data Phase (goal : Header) : ResponseReader → Bytes → Type 0 where
    in_data :
        {r : ResponseReader} {bs out : Bytes}
        → r.err ≡ none
        → r.partial_trailer_data ≡ []
        → r.has_read_trailers ≡ false
        → populate_trailers r.trailers h ≡ goal
        → Delivers r.body bs eof
        → bs ≡ out ++ frame 128 payload
        → scan r.cursor bs ≡ (start, length out)
        → IsCursor r.cursor
        → All IsByte bs
        → Phase goal r out
    in_trailers :
        {r : ResponseReader} {bs out : Bytes}
        → r.err ≡ none
        → is_empty r.partial_trailer_data ≡ false
        → r.has_read_trailers ≡ false
        → r.has_read_data ≡ true
        → populate_trailers r.trailers h ≡ goal
        → Delivers r.body bs eof
        → r.partial_trailer_data ++ bs ≡ frame 128 payload
        → out ≡ []
        → Phase goal r out
    behind_trailers :
        {r : ResponseReader} {out : Bytes}
        → r.err ≡ none
        → r.partial_trailer_data ≡ []
        → r.has_read_trailers ≡ true
        → r.trailers ≡ goal
        → Delivers r.body [] eof
        → out ≡ []
        → Phase goal r out

  -- What is left to do: the reader's store, and the trailers that are stored.
  abbrev pub todo : ResponseReader → ℕ
  todo r = weight r.body + length r.partial_trailer_data

  -- How a call goes on from there.
  pub data Progress (goal : Header) (size n : ℕ) (out : Bytes) : Outcome → Type 0 where
    handed_out :
        {r' : ResponseReader} (front back : Bytes)
        → length front ≤ size
        → out ≡ front ++ back
        → Phase goal r' back
        → todo r' < n
        → Progress goal size n out (some (r', front, none))
    finished :
        {r' : ResponseReader}
        → out ≡ []
        → r'.trailers ≡ goal
        → r'.err ≡ some eof
        → Progress goal size n out (some (r', [], some eof))
