-- ===== src/Kafka.antt =====
-- source/kafka_callback.cpp, include/hound/sink/kafka/producer_pool.hpp, producer.hpp and the sending
-- half of source/_kafka_impl.cpp. librdkafka is not part of the repository: a producer is a number
-- that `create` gives, and what `produce` answers is an argument.
pub mod Callback
pub mod Managed
pub mod Partition
pub mod Pool
pub mod Config
pub mod Send
mod Examples
mod Reports
