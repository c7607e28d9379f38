-- ===== src/Server.antt =====
-- server/: the handler that downgrades gRPC responses, and the reader of gRPC-WebSocket requests.
pub mod WebsocketReader
pub mod Handler
pub mod WebsocketWriter
pub mod WebsocketHandler
