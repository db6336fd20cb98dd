-- ===== src/Messaging.antt =====
-- packages/api/src/modules/messaging: conversations, their members and their keys.
pub mod Conversations
pub mod Sync
mod Tests
