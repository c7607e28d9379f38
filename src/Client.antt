-- ===== src/Client.antt =====
-- client/: the proxy in the client's process that speaks gRPC-Web or gRPC-WebSocket to the server.
pub mod WebsocketProxy
pub mod Proxy
pub mod NonBufferingWriter
pub mod Options
pub mod SideChannel
pub mod Connect
