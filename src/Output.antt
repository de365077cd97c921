-- ===== src/Output.antt =====
-- The outputs of lib/outputs.
pub mod File
pub mod Files
pub mod ElasticSearch
pub mod Http
pub mod Redis
pub mod Statsd
pub mod Tcp
pub mod WebSocket
pub mod ZeroMq
