-- ===== src/Lib.antt =====
-- Verification of go-grpc-http1: gRPC over HTTP/1 connections, by gRPC-Web and by WebSockets.
--
-- The program has two halves. In the server's process, server/ wraps a gRPC server into an HTTP handler:
-- `CreateDowngradingHandler` looks at a request and serves it natively, as gRPC-Web (a response whose
-- trailers stand in a data frame, internal/grpcweb/response_writer.go), or over a WebSocket (request
-- body by server/websocket_reader.go, response by server/websocket_writer.go, whose bytes `Write` of
-- internal/grpcwebsocket/write.go sends as messages). In the client's process, client/ runs a proxy that
-- changes requests, turns gRPC-Web responses back (internal/grpcweb/response_reader.go) or speaks
-- gRPC-WebSocket (client/ws_proxy.go).
--
-- Files, and the code that they model:
--   Proto: internal/grpcproto/message_header.go and utils.go; Proto/Percent: message.go.
--   Grpcweb/Consume: `consume` of internal/grpcweb/response_reader.go. Grpcweb/ResponseReader: the rest
--     of it, with internal/ioutils/counting_reader.go.
--   Grpcweb/ResponseWriter: internal/grpcweb/response_writer.go.
--   Trailers: the statements on trailers that response_writer.go and websocket_writer.go share.
--   Grpcwebsocket: internal/grpcwebsocket/write.go.
--   Server/Handler: server/server.go and server/options.go; Server/WebsocketHandler: `handleGRPCWS`.
--   Size: internal/size/size.go, of which both read limits are made.
--   Server/WebsocketReader: server/websocket_reader.go, `Read` on what arrives; its child Loop,
--     `readerLoop`, `Read` and `Close` side by side. Server/WebsocketWriter: websocket_writer.go.
--   Client/WebsocketProxy: `writeToServer` of client/ws_proxy.go; its children Response, `readFromServer`
--     with what it calls, and Serving, `ServeHTTP` and the errors of a connection.
--   Client/Proxy: the director and the content type of client/proxy.go; its children Response,
--     `modifyResponse`, and Failure, `writeError`.
--   Httputils: internal/httputils/error_message.go.
--   Client/Connect: `ConnectViaProxy` of client/proxy.go with what it calls, and `createClientWSProxy`.
--   Client/SideChannel: client/side_channel_creds.go.
--   Client/Options: client/options.go; Client/NonBufferingWriter: client/non_buffering_writer.go.
--   Tunnel: a request body from the client's proxy to the server's reader; Tunnel/Response: a response
--     back.
--   Concurrency/Signal: internal/concurrency/signal.go, with `IsDone` of wait.go; Concurrency/Waiting:
--     `SignalWhen`, the rest of wait.go, and do.go.
--   Pipeconn: internal/pipeconn/pipe_listener.go.
--   Strings: internal/stringutils/split.go and internal/sliceutils/utils.go.
--   Io: `CopyNFull` of internal/ioutils/io.go, over Go's readers.
--   Http, Utf8: what the code uses of Go's net/http, net/textproto (of Go 1.20) and unicode/utf8.
--   Common, Errors: shared lemmas, and errors as values. Tests: concrete runs.
--
-- Functions keep their names in snake case. A struct is a record of the fields that the code reads and
-- writes; a method takes it and returns it. Bytes are numbers below 256, stated where a theorem needs it,
-- and a conversion to `uint32` is written `% 2 ^ 32`. A Go map of header fields is an association list,
-- and a nil slice is `none`. An index out of range, the slice of a message that is too short, and the
-- `close` of a closed channel are values of their own. The gRPC server, the WebSocket connection and the writers of the HTTP server are code
-- outside the repository: parameters, or lists of the calls that reach them.
--
-- Loops run on fuel only in `consume` (the buffer's length: each round takes a byte at least), in
-- `Write` (one more than the bytes of the reader: each round takes five at least), in
-- `encodeGrpcMessageUnchecked` and the runes of a text (its length: each rune has a byte at least), and in
-- the digits of a number (the number).
--
-- What a read limit does to long messages is code of the WebSocket library: what a connection gives is a
-- function of the limit, and a theorem that needs it supposes that messages within the limit come whole.
--
-- A body's errors other than io.EOF, and a connection's, come again at each further read. The text of an
-- error, `websocket.CloseStatus`, what a dial comes to, and the decompressor are parameters. The two
-- directions of a client's connection share only the error that is set first, so a run of both is the
-- results of the two and their order; where one closes the connection, this shows in what the other gets.
--
-- Not modelled: what the libraries do with the transports, servers and connections that are set up, the
-- logging, `Addr` of the listener, which is a constant, and the integration tests and tool imports.
pub mod Common
pub mod Errors
pub mod Proto
pub mod Utf8
pub mod Io
pub mod Pipeconn
pub mod Grpcwebsocket
pub mod Grpcweb
pub mod Server
pub mod Client
pub mod Tunnel
pub mod Concurrency
pub mod Strings
pub mod Http
pub mod Httputils
pub mod Size
pub mod Trailers
pub mod Tests
