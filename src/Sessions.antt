-- ===== src/Sessions.antt =====
-- sessions/session.go and the session types of sessions/*.go
pub mod Api
pub mod Script
pub mod HttpGet
pub mod Latency
pub mod Sender
pub mod Broadcast
pub mod FxBroadcast
pub mod Echo
pub mod WebPubSub
pub mod SignalrEcho
pub mod Kafka
pub mod Quic
pub mod RabbitMq
pub mod Redis
pub mod Pulsar
pub mod Registry
pub mod Names
pub mod Dummy
