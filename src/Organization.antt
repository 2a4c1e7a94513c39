-- ===== src/Organization.antt =====
-- packages/crm-modules/organization/src: people, employments, units, positions and assignments as
-- facts with effective intervals.
pub mod Facts
pub mod Intervals
pub mod Store
pub mod Hierarchy
pub mod Service
pub mod Context
