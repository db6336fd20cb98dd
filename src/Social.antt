-- ===== src/Social.antt =====
-- packages/api/src/modules/social: the social graph.
pub mod Graph
mod Tests
