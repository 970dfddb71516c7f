-- ===== src/Channels.antt =====
-- channels: the publish/subscribe hub, its transport and its two broadcasters.
pub mod Hub
pub mod Api
pub mod Untrack
pub mod Steps
pub mod Joined
pub mod Invariant
pub mod Accounts
pub mod Subscriptions
pub mod Delivery
pub mod Late
pub mod Memory
pub mod Sse
pub mod Poll
mod Tests
