-- ===== src/Grpcweb.antt =====
-- internal/grpcweb: the gRPC-Web framing of a response.
pub mod Consume
pub mod ResponseWriter
pub mod ResponseReader
