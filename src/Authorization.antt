-- ===== src/Authorization.antt =====
-- packages/crm-modules/authorization/src: the decision service of the fixed roles (fixed-roles.ts,
-- types.ts, errors.ts).
pub mod Roles
pub mod Bundles
pub mod Service
pub mod Decisions
pub mod Batches
pub mod Scopes
