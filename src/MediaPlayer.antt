-- ===== src/MediaPlayer.antt =====
-- The media player (src/backend/src/media_player.rs).
pub mod Queue
pub mod Engine
pub mod Player
pub mod Transport
pub mod Seek
pub mod Announce
pub mod Playlist
pub mod Commands
pub mod Removal
pub mod Clock
pub mod Stuck
pub mod Advance
pub mod Rounds
pub mod Spoken
pub mod Calls
pub mod Untouched
pub mod Sound
pub mod Bench
mod Tests
