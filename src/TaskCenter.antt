-- ===== src/TaskCenter.antt =====
-- packages/crm-modules/task-center/src: the claims of commands.
pub mod Commands
