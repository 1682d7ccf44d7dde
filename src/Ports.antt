-- ===== src/Ports.antt =====
-- internal/sms/ports: the interfaces through which the services reach the adapters. `W` is the
-- world, which holds the state of whatever implements an interface; a context is a part of it.
pub mod Queues
pub mod Senders
