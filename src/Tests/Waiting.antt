-- ===== src/Tests/Waiting.antt =====
-- Runs of internal/concurrency's waits, and of client/side_channel_creds.go.
use go_grpc_http.Common.{
  ℕ, suc, Bool, true, false, none, some, List, [], ◌∷◌, if◌then◌else◌, codes, ◌≡◌, refl,
}
use go_grpc_http.Errors.{eof, gives, fails}
use go_grpc_http.Concurrency.Signal.{Signal, new_signal, is_done, IsSignal}
use go_grpc_http.Concurrency.Signal.Calls.{new_signal-IsSignal, Keeps}
use go_grpc_http.Concurrency.Waiting.{
  pos, condition, do_with_timeout, Waited, do_with_timeout-Waited, trigger_done, signal_when,
  signal_when_lem,
}
use go_grpc_http.Client.SideChannel.{Outside, ProxyUrl}
use go_grpc_http.Client.SideChannel.Calls.{Call}

-- The timer fires between the `select` and the call of `Stop`.
do_with_timeout-Waited_example :
    (b : Bool) × (do_with_timeout suc 4 (pos 9) true condition true ≡ some (if b then 5 else 4, b))
    × Waited (pos 9) true false b
do_with_timeout-Waited_example =
    do_with_timeout-Waited suc 4 (pos 9) true false condition true (λ h. refl)

signal_when_lem_example :
    (t : Signal) × (b : Bool) × (signal_when new_signal trigger_done ≡ some (t, b))
    × (b ≡ true → (true ≡ true) × (is_done new_signal ≡ false))
    × (false ≡ false → is_done t ≡ true)
    × IsSignal t
    × Keeps new_signal t
signal_when_lem_example =
    signal_when_lem new_signal true false trigger_done new_signal-IsSignal.0 refl

abbrev proxy : ProxyUrl
proxy = record { host = codes "p"; hostname = codes "p"; port = [] }

-- A proxy that refuses the tunnel, or makes it.
abbrev behind_proxy : ℕ → Outside ℕ
behind_proxy status = record {
  new_request_error = λ url. none;
  proxy_from_environment = λ url. gives (some proxy);
  dial = λ addr. gives 1;
  read_response =
      λ conn sent. gives (record { status_code = status; status = codes "status"; buffered = 0 });
  tls_handshake = λ authority conn. gives 42;
}

abbrev unreachable : Outside ℕ
unreachable = record (behind_proxy 200) { dial = λ addr. fails eof }

abbrev calls : List (Call ℕ)
calls =
    record { out = unreachable; authority = codes "a"; raw_conn = 10 }
    ∷ record { out = behind_proxy 403; authority = codes "a"; raw_conn = 11 }
    ∷ record { out = behind_proxy 200; authority = codes "a"; raw_conn = 12 }
    ∷ record { out = unreachable; authority = codes "b"; raw_conn = 13 }
    ∷ []
