-- ===== src/Service.antt =====
-- internal/sms/service: what happens to a message between its delivery and the output queues.
pub mod ResultHandler
pub mod Processor
pub mod Settled
pub mod Router
pub mod Scheduler
pub mod Transactional
pub mod MessageRouter
pub mod Homogeneous
pub mod AfricasTalking
