-- ===== src/Payments.antt =====
-- packages/api/src/modules/payments/payments.service.ts
pub mod Types
pub mod Steps
pub mod Send
pub mod Requests
pub mod Split
pub mod Lifecycle
mod Tests
