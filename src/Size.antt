-- ===== src/Size.antt =====
-- internal/size/size.go: the sizes that the read limits of the WebSockets are made of, in bytes.
use go_grpc_http.Common.{ℕ, ◌*◌}

abbrev kb : ℕ
kb = 1024 * 1

abbrev pub mb : ℕ
mb = 1024 * kb
