-- ===== src/Tests/Loop.antt =====
-- A run of server/websocket_reader.go: the loop hands over one message, and the call of `Read` returns it.
use go_grpc_http.Common.{◌+◌, ◌≤◌, none, List, [], ◌∷◌, ◌++◌, Bytes, ◌≡◌, refl}
use go_grpc_http.Io.{Reader, read_all}
use go_grpc_http.Proto.{validate_grpc_frame, is_end_of_stream, is_data_frame}
use go_grpc_http.Server.WebsocketReader.{
  Incoming, opened, binary, Arrival, forward, check_message, copy_out, message_checked, returns,
}
use go_grpc_http.Server.WebsocketReader.Loop.{
  World, offering, at_barrier, in_reader, selecting, buffering, checking, idle,
  new_websocket_reader, reader_of, Reach, begun, stepped, takes_barrier, gets, selects, gets_reader,
  releases, checks,
}
use go_grpc_http.Server.WebsocketReader.Loop.Sequential.{received, reader_on, Reads}
use go_grpc_http.Server.WebsocketReader.Loop.Barrier.{
  loop_holds, call_holds, IsHeld, Waits, Reach-Waits,
}
use go_grpc_http.Server.WebsocketReader.Loop.Refinement.{Reach-Reads}

abbrev message : Bytes
message = 0 ∷ 0 ∷ 0 ∷ 0 ∷ 1 ∷ 7 ∷ []

abbrev body : Reader
body = (message, none) ∷ []

abbrev incoming : List Incoming
incoming = opened binary body ∷ []

abbrev reading : World
reading = record (new_websocket_reader incoming) { loop = in_reader; barrier = 0 }

abbrev waiting : World
waiting = record reading { loop = offering (opened binary body); incoming = []; call = selecting 4 }

abbrev taken : World
taken = record waiting { loop = at_barrier; call = buffering 4 body }

abbrev released : World
released = record taken { call = checking 4 message; barrier = 1 }

abbrev handed_out : World
handed_out = record released {
  curr_msg = 1 ∷ 7 ∷ [];
  call = idle;
  results = (4, 0 ∷ 0 ∷ 0 ∷ 0 ∷ [], none) ∷ [];
}

checked :
    message_checked 4 (reader_of released) message (check_message message)
    ≡ returns (record (reader_of handed_out) { arrivals = [] }) (0 ∷ 0 ∷ 0 ∷ 0 ∷ []) none
unfolding message_checked copy_out check_message validate_grpc_frame is_end_of_stream is_data_frame
checked = refl

reading_reached : Reach incoming reading
reading_reached = stepped begun (takes_barrier refl 0 refl)

waiting_reached : Reach incoming waiting
waiting_reached =
    stepped (stepped reading_reached (gets refl (opened binary body) [] refl))
      (selects 4 refl refl refl)

taken_reached : Reach incoming taken
unfolding forward
taken_reached = stepped waiting_reached (gets_reader 4 refl (opened binary body) refl body refl)

released_reached : Reach incoming released
unfolding read_all
released_reached = stepped taken_reached (releases 4 body refl refl refl)

handed_reached : Reach incoming handed_out
handed_reached = stepped released_reached (checks 4 message refl checked)

Reach-Reads_example :
    (log : List Arrival) × (rest : List Incoming) × (incoming ≡ received log ++ rest)
    × Reads (reader_on log) handed_out.results (reader_of handed_out)
Reach-Reads_example = Reach-Reads handed_reached

Reach-Waits_example :
    (waiting.barrier + loop_holds waiting.loop + call_holds waiting.call ≤ 1)
    × IsHeld waiting
    × Waits waiting
Reach-Waits_example = Reach-Waits waiting_reached
