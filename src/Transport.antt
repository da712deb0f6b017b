-- ===== src/Transport.antt =====
-- src/rpc/transport: how requests reach an endpoint, over a socket (Ws) and in batches over HTTP
-- (Http).
pub mod Ws
pub mod Http
