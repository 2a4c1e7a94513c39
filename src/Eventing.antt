-- ===== src/Eventing.antt =====
-- packages/crm-modules/eventing-outbox/src: the outbox of messages, the inbox of each consumer, and jobs.
pub mod Facts
pub mod Store
pub mod Consumption
