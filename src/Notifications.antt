-- ===== src/Notifications.antt =====
-- packages/crm-modules/notifications/src: templates of notifications, the intents to notify, and the
-- notifications of each principal.
pub mod Store
