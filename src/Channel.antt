-- ===== src/Channel.antt =====
-- jni/src/native_channel.c, by the parts of a channel's life.
pub mod Create
pub mod Transfer
pub mod Query
pub mod Handlers
