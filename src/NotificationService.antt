-- ===== src/NotificationService.antt =====
-- apps/notification-service: notifications, mails, the jobs of the mail queue, and the guards.
pub mod Notifications
pub mod Mails
pub mod Jobs
pub mod Requests
