-- ===== src/Server/WebsocketReader/Loop/Sequential.antt =====
-- The calls of `Read` beside the loop are calls of the sequential `read` on a list of arrivals.
use go_grpc_http.Common.{
  ℕ, Bool, true, false, Option, none, some, List, [], ◌∷◌, ◌++◌, Bytes, codes, ◌≡◌, ◌≢◌, refl, sym,
  ap, ◌∙◌, subst, append_assoc,
}
use go_grpc_http.Errors.{Error, wrapped, Result, ok, err, panic}
use go_grpc_http.Io.{Reader, read_all}
use go_grpc_http.Server.WebsocketReader.{
  Incoming, WsReader, Arrival, result, cancelled, Outcome, returns, blocks, panics, check_message,
  copy_out, failing, message_checked, message_read, arrived, do_read, forward, ReaderResult,
  has_reader, has_error, read,
}
use go_grpc_http.Server.WebsocketReader.Loop.{
  Loop, at_barrier, in_reader, offering, stopped, Call, idle, selecting, buffering, checking, World,
  reader_of,
}

-- A new reader of these arrivals.
abbrev pub reader_on : List Arrival → WsReader
reader_on as' = record { curr_msg = []; err = none; arrivals = as' }

-- Calls of `read` one after the other, the last one first in the list of their results.
pub data Reads (s : WsReader) : List (ℕ × Bytes × Option Error) → WsReader → Type 0 where
  no_call : Reads s [] s
  one_more :
      {t u : WsReader} {rs : List (ℕ × Bytes × Option Error)} (size : ℕ) {out : Bytes}
      {e : Option Error}
      → Reads s rs t
      → read size t ≡ returns u out e
      → Reads s ((size, out, e) ∷ rs) u

-- What the loop got that the arrivals carry.
abbrev pub received : List Arrival → List Incoming
received [] = []
received (result i ∷ as') = i ∷ received as'
received (cancelled e ∷ as') = received as'

received-append : (xs ys : List Arrival) → received (xs ++ ys) ≡ received xs ++ received ys
received-append [] ys = refl
received-append (result i ∷ xs) ys = ap (i ∷◌) (received-append xs ys)
received-append (cancelled e ∷ xs) ys = received-append xs ys

abbrev pub with_arrivals : List Arrival → WsReader → WsReader
with_arrivals as' s = record s { arrivals = as' }

abbrev pub retarget : List Arrival → Outcome → Outcome
retarget as' (returns s out e) = returns (with_arrivals as' s) out e
retarget as' blocks = blocks
retarget as' panics = panics

pub message_checked-retarget :
    (size : ℕ) (s : WsReader) (msg : Bytes) (r : Result Bool) (as' : List Arrival)
    → message_checked size (with_arrivals as' s) msg r ≡ retarget as' (message_checked size s msg r)
unfolding message_checked copy_out
message_checked-retarget size s msg (ok true) as' = refl
message_checked-retarget size s msg (ok false) as' = refl
message_checked-retarget size s msg (err e) as' = refl
message_checked-retarget size s msg panic as' = refl

-- `read` where it does not select, and where it does.
abbrev unless_failed : ℕ → WsReader → Option Error → Outcome
unless_failed size s (some e) = returns s [] (some e)
unless_failed size s none = do_read size s s.curr_msg s.arrivals

pub read_sticky :
    (size : ℕ) (s : WsReader) {e : Error} → s.err ≡ some e → read size s ≡ returns s [] (some e)
unfolding read
read_sticky size s h = ap (λ t. unless_failed size s t) h

pub read_current :
    (size : ℕ) (s : WsReader) (b : ℕ) (bs : Bytes)
    → s.err ≡ none
    → s.curr_msg ≡ b ∷ bs
    → read size s ≡ copy_out size s
unfolding read do_read
read_current size s b bs h m =
    ap (λ t. unless_failed size s t) h ∙ ap (λ c. do_read size s c s.arrivals) m

read-arrived :
    (size : ℕ) (s : WsReader) (a : Arrival) (as' : List Arrival)
    → s.err ≡ none
    → s.curr_msg ≡ []
    → s.arrivals ≡ a ∷ as'
    → read size s ≡ arrived size (with_arrivals as' s) a
unfolding read do_read
read-arrived size s a as' h m g =
    ap (λ t. unless_failed size s t) h
    ∙ ap (λ c. do_read size s c s.arrivals) m
    ∙ ap (do_read size s []) g

pub arrived_cancelled :
    (size : ℕ) (s : WsReader) (e : Error)
    → arrived size s (cancelled e) ≡ failing s (wrapped (codes "reading websocket message") e)
unfolding arrived
arrived_cancelled size s e = refl

abbrev on_result : ℕ → WsReader → ReaderResult → Outcome
on_result size s (has_error e) = failing s e
on_result size s (has_reader r) = message_read size s (read_all r)

pub arrived_error :
    (size : ℕ) (s : WsReader) (i : Incoming) (e : Error)
    → forward i ≡ has_error e
    → arrived size s (result i) ≡ failing s e
unfolding arrived
arrived_error size s i e f = ap (on_result size s) f

abbrev pub on_message : ℕ → WsReader → Bytes → Option Error → Outcome
on_message size s msg (some e) = failing s e
on_message size s msg none = message_checked size s msg (check_message msg)

pub arrived_message :
    (size : ℕ) (s : WsReader) (i : Incoming) (r : Reader) (e : Option Error)
    → forward i ≡ has_reader r
    → (read_all r).error ≡ e
    → arrived size s (result i) ≡ on_message size s (read_all r).bytes e
unfolding arrived message_read
arrived_message size s i r e f g =
    ap (on_result size s) f ∙ ap (on_message size s (read_all r).bytes) g

-- The result that a call of `Read` has taken from the loop and not finished.
pub data Pending : Call → List Incoming → Type 0 where
  none_idle : Pending idle []
  none_selecting : {size : ℕ} → Pending (selecting size) []
  in_buffer :
      {size : ℕ} {r : Reader} (i : Incoming)
      → forward i ≡ has_reader r
      → Pending (buffering size r) (i ∷ [])
  in_check :
      {size : ℕ} {msg : Bytes} (i : Incoming) (r : Reader)
      → forward i ≡ has_reader r
      → (read_all r).error ≡ none
      → msg ≡ (read_all r).bytes
      → Pending (checking size msg) (i ∷ [])

-- What is still to come for `Read`, with the loop's result in front; a loop that stops drops it.
pub data Ahead : Loop → List Incoming → List Incoming → Type 0 where
  barrier_ahead : {is : List Incoming} → Ahead at_barrier is is
  reader_ahead : {is : List Incoming} → Ahead in_reader is is
  offer_ahead : {i : Incoming} {is : List Incoming} → Ahead (offering i) is (i ∷ is)
  dropped : {is rest : List Incoming} → Ahead stopped is rest

pub record IsSequential (incoming : List Incoming) (w : World) : Type 0 where
  pub log : List Arrival
  pub pend : List Incoming
  pub rest : List Incoming
  pub replay :
      (more : List Arrival)
      → Reads (reader_on (log ++ more)) w.results (with_arrivals more (reader_of w))
  pub pending : Pending w.call pend
  pub ahead : Ahead w.loop w.incoming rest
  pub order : incoming ≡ received log ++ (pend ++ rest)
  pub quiet : w.call ≢ idle → (w.err ≡ none) × (w.curr_msg ≡ [])

-- A call of `Read` that ends with an arrival.
pub consumes :
    (log : List Arrival) {rs : List (ℕ × Bytes × Option Error)} (s u : WsReader) (a : Arrival)
    (size : ℕ) (out : Bytes) (e : Option Error)
    → ((more : List Arrival) → Reads (reader_on (log ++ more)) rs (with_arrivals more s))
    → s.err ≡ none
    → s.curr_msg ≡ []
    → ((more : List Arrival)
        → arrived size (with_arrivals more s) a ≡ returns (with_arrivals more u) out e)
    → (more : List Arrival)
    → Reads (reader_on ((log ++ a ∷ []) ++ more)) ((size, out, e) ∷ rs) (with_arrivals more u)
consumes log {rs} s u a size out e replay clean empty ends more =
    subst (λ as'. Reads (reader_on as') ((size, out, e) ∷ rs) (with_arrivals more u))
      (sym (append_assoc log (a ∷ []) more))
      (one_more size (replay (a ∷ more))
        (read-arrived size (with_arrivals (a ∷ more) s) a more clean empty refl ∙ ends more))

buffering_reader : {m n : ℕ} {q r : Reader} → buffering m q ≡ buffering n r → q ≡ r
buffering_reader e = cc

checking_message : {m n : ℕ} {x y : Bytes} → checking m x ≡ checking n y → x ≡ y
checking_message e = cc

offered_result : {i j : Incoming} → offering i ≡ offering j → i ≡ j
offered_result e = cc

pub idle-Pending : {c : Call} {pend : List Incoming} → Pending c pend → c ≡ idle → pend ≡ []
idle-Pending none_idle e = refl
idle-Pending none_selecting e = cc
idle-Pending (in_buffer i f) e = cc
idle-Pending (in_check i r f g m) e = cc

pub selecting-Pending :
    {c : Call} {pend : List Incoming} {size : ℕ} → Pending c pend → c ≡ selecting size → pend ≡ []
selecting-Pending none_idle e = cc
selecting-Pending none_selecting e = refl
selecting-Pending (in_buffer i f) e = cc
selecting-Pending (in_check i r f g m) e = cc

-- The result that a call holds.
pub buffer-Pending :
    {c : Call} {pend : List Incoming} {size : ℕ} {r : Reader}
    → Pending c pend
    → c ≡ buffering size r
    → (i : Incoming) × (forward i ≡ has_reader r) × (pend ≡ i ∷ [])
buffer-Pending none_idle e = cc
buffer-Pending none_selecting e = cc
buffer-Pending (in_buffer i f) e = (i, f ∙ ap has_reader (buffering_reader e), refl)
buffer-Pending (in_check i r f g m) e = cc

pub check-Pending :
    {c : Call} {pend : List Incoming} {size : ℕ} {msg : Bytes}
    → Pending c pend
    → c ≡ checking size msg
    → (i : Incoming) × (r : Reader) × (forward i ≡ has_reader r)
      × ((read_all r).error ≡ none)
      × (msg ≡ (read_all r).bytes)
      × (pend ≡ i ∷ [])
check-Pending none_idle e = cc
check-Pending none_selecting e = cc
check-Pending (in_buffer i f) e = cc
check-Pending (in_check i r f g m) e = (i, r, f, g, sym (checking_message e) ∙ m, refl)

pub offer_rest :
    {l : Loop} {i : Incoming} {is rest : List Incoming}
    → Ahead l is rest
    → l ≡ offering i
    → rest ≡ i ∷ is
offer_rest barrier_ahead e = cc
offer_rest reader_ahead e = cc
offer_rest {is = is} offer_ahead e = ap (λ j. j ∷ is) (offered_result e)
offer_rest dropped e = cc

pub waiting_rest :
    {l : Loop} {is rest : List Incoming} → Ahead l is rest → l ≡ at_barrier → rest ≡ is
waiting_rest barrier_ahead e = refl
waiting_rest reader_ahead e = cc
waiting_rest offer_ahead e = cc
waiting_rest dropped e = cc

pub reading_rest :
    {l : Loop} {is rest : List Incoming} → Ahead l is rest → l ≡ in_reader → rest ≡ is
reading_rest barrier_ahead e = cc
reading_rest reader_ahead e = refl
reading_rest offer_ahead e = cc
reading_rest dropped e = cc

-- A result that is taken and then counted as an arrival.
pub order_taken :
    (incoming : List Incoming) (log : List Arrival) (a : Arrival) (pend rest : List Incoming)
    → received (a ∷ []) ≡ pend
    → incoming ≡ received log ++ (pend ++ rest)
    → incoming ≡ received (log ++ a ∷ []) ++ ([] ++ rest)
order_taken incoming log a pend rest e o =
    o
    ∙ sym (append_assoc (received log) pend rest)
    ∙ ap (λ p. (received log ++ p) ++ rest) (sym e)
    ∙ ap (λ p. p ++ rest) (sym (received-append log (a ∷ [])))
