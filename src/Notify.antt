-- ===== src/Notify.antt =====
-- internal/notify: the mail to the operators.
pub mod Summary
pub mod Bucket
pub mod Render
pub mod Mime
pub mod Notifier
pub mod Html
