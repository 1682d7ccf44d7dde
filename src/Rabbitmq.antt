-- ===== src/Rabbitmq.antt =====
-- internal/sms/adapters/rabbitmq: publishing results to the output queues, and reading deliveries.
pub mod Publisher
pub mod Results
pub mod Postings
pub mod Log
pub mod Routing
pub mod Consumer
pub mod Kinds
pub mod Consuming
pub mod Channels
pub mod Declarations
pub mod Brokers
pub mod Topology
