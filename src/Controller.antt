-- ===== src/Controller.antt =====
-- services/nexguard-controller/app: the parts of the controller, each with its log.
pub mod Log
pub mod Models
pub mod Notifier
pub mod Health
pub mod Incident
pub mod Docker
pub mod Backup
pub mod Config
pub mod Recovery
pub mod Runtime
pub mod Service
mod Tests
pub mod Settings
pub mod Application
