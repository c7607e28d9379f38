-- ===== src/Tests.antt =====
-- Concrete runs: each theorem of the header's list at an input that exercises the code.
mod Proto
mod Grpcweb
mod Websocket
mod Handler
mod Misc
mod Client
mod Response
mod Reader
mod Proxy
mod Pipe
mod Loop
mod Errors
mod Waiting
