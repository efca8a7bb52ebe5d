-- ===== src/Redis.antt =====
-- Package redisstore: stream ids and messages, and the operations of the stream store over a
-- Redis client.
pub mod StreamId
pub mod Message
pub mod Client
pub mod PubSub
pub mod Streams
mod Tests
