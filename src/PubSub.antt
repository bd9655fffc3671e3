-- ===== src/PubSub.antt =====
-- x/pubsub: publishers, subscribers and what they have agreed to send and to receive.
pub mod Types
pub mod Store
pub mod Removal
pub mod Validate
pub mod Messages
pub mod Proposals
pub mod Genesis
pub mod Reading
pub mod Tests
pub mod Handler
pub mod Linked
