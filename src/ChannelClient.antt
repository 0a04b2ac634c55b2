-- ===== src/ChannelClient.antt =====
-- The bots in the channels: lib/channel-client.
pub mod Sessions
mod Tests
