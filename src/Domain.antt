-- ===== src/Domain.antt =====
-- internal/sms/domain: networks, errors, messages and the results of sending them.
pub mod Network
pub mod Errors
pub mod Message
pub mod Flexible
pub mod Result
pub mod Outcome
pub mod Batch
