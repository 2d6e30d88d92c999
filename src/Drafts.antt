-- ===== src/Drafts.antt =====
-- The drafts of a chat answer in progress: worker/agents/chat/drafts.py.
pub mod Publisher
pub mod Delivery
pub mod Order
pub mod Joined
pub mod Sent
pub mod Stored
mod Tests
