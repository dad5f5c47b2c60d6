-- ===== src/Sessions/RabbitMq.antt =====
-- RabbitMQMassiveQueue of sessions/rabbitmq_massive_queue.go, and its pool of channels.
pub mod Pool
pub mod Packed
pub mod Queues
pub mod OneQueue
pub mod Account
pub mod Stale
