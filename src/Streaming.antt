-- ===== src/Streaming.antt =====
-- The streaming screen (frontend/src/domains/streaming): the frames of the live socket, the feed
-- that the screen holds, the connection that reopens itself, and the replay's controls.
pub mod Frames
pub mod Feed
pub mod Connect
mod Replay
mod ReplayForm
mod Screen
mod Mock
