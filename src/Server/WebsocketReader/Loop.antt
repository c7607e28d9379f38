-- ===== src/Server/WebsocketReader/Loop.antt =====
-- server/websocket_reader.go: `readerLoop` and `Read` as two goroutines, with the barrier between them.
--
-- A step is one atomic action of the loop, of the goroutine that reads, or of the context. There is one
-- call of `Read` at a time. What `(*websocket.Conn).Reader` will return is a list; the barrier is the
-- number of values in its channel, which has room for one.
pub mod Barrier
pub mod Sequential
pub mod Refinement
use go_grpc_http.Common.{ℕ, zero, suc, Option, none, some, List, [], ◌∷◌, Bytes, codes, ◌≡◌}
use go_grpc_http.Errors.{Error, wrapped}
use go_grpc_http.Io.{Reader, read_all}
use go_grpc_http.Server.WebsocketReader.{
  Incoming, has_reader, has_error, forward, WsReader, Outcome, returns, check_message, copy_out,
  message_checked,
}

-- Where `readerLoop` is: at its first `select`, in `(*websocket.Conn).Reader`, at its second `select`
-- with the result of that call, or behind its return.
pub data Loop : Type 0 where
  at_barrier in_reader : Loop
  offering : Incoming → Loop
  stopped : Loop

-- Where the call of `Read` is, with its buffer's size: nowhere, at the `select` of `doRead`, in the read
-- of the whole message, or behind the send to the barrier.
pub data Call : Type 0 where
  idle : Call
  selecting : ℕ → Call
  buffering : ℕ → Reader → Call
  checking : ℕ → Bytes → Call

-- `read_ctx` is the error of the read context, once that has ended. `results` are those of the calls of
-- `Read` that returned, the last one first, each with the size of its buffer.
pub record World : Type 0 where
  pub curr_msg : Bytes
  pub err : Option Error
  pub read_ctx : Option Error
  pub barrier : ℕ
  pub loop : Loop
  pub call : Call
  pub incoming : List Incoming
  pub results : List (ℕ × Bytes × Option Error)

-- `newWebSocketReader`, with the barrier filled and the loop started.
abbrev pub new_websocket_reader : List Incoming → World
new_websocket_reader incoming = record {
  curr_msg = [];
  err = none;
  read_ctx = none;
  barrier = 1;
  loop = at_barrier;
  call = idle;
  incoming = incoming;
  results = [];
}

-- The fields that the goroutine of `Read` keeps for itself.
abbrev pub reader_of : World → WsReader
reader_of w = record { curr_msg = w.curr_msg; err = w.err; arrivals = [] }

-- A call of `Read` returns.
abbrev pub returned : ℕ → WsReader → Bytes → Option Error → World → World
returned size s bs e w = record w {
  curr_msg = s.curr_msg;
  err = s.err;
  call = idle;
  results = (size, bs, e) ∷ w.results;
}

abbrev pub failed : ℕ → Error → World → World
failed size e w = returned size (record (reader_of w) { err = some e }) [] (some e) w

pub data Step (w : World) : World → Type 0 where
  -- The loop.
  takes_barrier :
      w.loop ≡ at_barrier
      → (n : ℕ) → w.barrier ≡ suc n
      → Step w (record w { loop = in_reader; barrier = n })
  gets :
      w.loop ≡ in_reader
      → (i : Incoming) (is : List Incoming) → w.incoming ≡ i ∷ is
      → Step w (record w { loop = offering i; incoming = is })
  stops_waiting :
      w.loop ≡ at_barrier → (e : Error) → w.read_ctx ≡ some e → Step w (record w { loop = stopped })
  stops_offering :
      (i : Incoming)
      → w.loop ≡ offering i
      → (e : Error) → w.read_ctx ≡ some e
      → Step w (record w { loop = stopped })
  -- `Read`, up to the `select`.
  reads_sticky :
      (size : ℕ)
      → w.call ≡ idle
      → (e : Error) → w.err ≡ some e
      → Step w (returned size (reader_of w) [] (some e) w)
  reads_current :
      (size : ℕ)
      → w.call ≡ idle
      → w.err ≡ none
      → (b : ℕ) (bs : Bytes) → w.curr_msg ≡ b ∷ bs
      → {s : WsReader} {out : Bytes} {e : Option Error}
      → copy_out size (reader_of w) ≡ returns s out e
      → Step w (returned size s out e w)
  selects :
      (size : ℕ)
      → w.call ≡ idle
      → w.err ≡ none
      → w.curr_msg ≡ []
      → Step w (record w { call = selecting size })
  -- The `select`.
  read_cancelled :
      (size : ℕ)
      → w.call ≡ selecting size
      → (e : Error) → w.read_ctx ≡ some e
      → Step w (failed size (wrapped (codes "reading websocket message") e) w)
  gets_error :
      (size : ℕ)
      → w.call ≡ selecting size
      → (i : Incoming) → w.loop ≡ offering i
      → (e : Error) → forward i ≡ has_error e
      → Step w (failed size e (record w { loop = at_barrier }))
  gets_reader :
      (size : ℕ)
      → w.call ≡ selecting size
      → (i : Incoming) → w.loop ≡ offering i
      → (r : Reader) → forward i ≡ has_reader r
      → Step w (record w { loop = at_barrier; call = buffering size r })
  -- `ReadFrom` and the send to the barrier, which blocks where the channel is full; then the checks.
  read_broken :
      (size : ℕ) (r : Reader)
      → w.call ≡ buffering size r
      → (e : Error) → (read_all r).error ≡ some e
      → Step w (failed size e w)
  releases :
      (size : ℕ) (r : Reader)
      → w.call ≡ buffering size r
      → (read_all r).error ≡ none
      → w.barrier ≡ 0
      → Step w (record w { call = checking size (read_all r).bytes; barrier = 1 })
  checks :
      (size : ℕ) (msg : Bytes)
      → w.call ≡ checking size msg
      → {s : WsReader} {out : Bytes} {e : Option Error}
      → message_checked size (reader_of w) msg (check_message msg) ≡ returns s out e
      → Step w (returned size s out e w)
  -- `Close`, or the end of the request's context.
  cancels : (e : Error) → w.read_ctx ≡ none → Step w (record w { read_ctx = some e })

pub data Reach (incoming : List Incoming) : World → Type 0 where
  begun : Reach incoming (new_websocket_reader incoming)
  stepped : {v w : World} → Reach incoming v → Step v w → Reach incoming w
