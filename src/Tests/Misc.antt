-- ===== src/Tests/Misc.antt =====
-- Runs of internal/stringutils and internal/concurrency.
use go_grpc_http.Common.{◌+◌}
use go_grpc_http.Concurrency.Signal.{swap_out, update}
use go_grpc_http.Concurrency.Signal.Interleaved.{World, initial}

-- One goroutine has swapped out the first channel and not closed it.
abbrev halfway : World
halfway = record initial {
  signal = (swap_out initial.signal).0;
  swapped = update initial.swapped 0;
  triggers = initial.triggers + 1;
}
