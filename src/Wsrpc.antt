-- ===== src/Wsrpc.antt =====
-- Package wsrpc: JSON-RPC over a websocket. Codec is wsrpc/codec.go, Service and Server are
-- wsrpc/server.go, Free the free lists of the same file, Notifier and Conn are wsrpc/notifier.go and wsrpc/conn.go.
pub mod Codec
pub mod Service
pub mod Conn
pub mod Free
pub mod Notifier
pub mod Server
