-- ===== src/Configuration.antt =====
-- packages/crm-modules/business-configuration/src: dictionaries of codes, and parameters whose values
-- are published and then activated for a scope and a span of time.
pub mod Facts
pub mod Validation
pub mod Definitions
pub mod Cache
pub mod Service
pub mod Store
