-- ===== src/Notifications.antt =====
-- services/notification-service/: the hub of websocket clients, and the consumer that turns events
-- into broadcasts, mails and alerts.
pub mod Hub
pub mod Consumer
mod Examples
