-- ===== src/Peer.antt =====
-- jni/src/native_peer.c, by the parts of a peer connection's life. The functions that answer with a
-- string are the getters of Util.antt at a peer handle.
pub mod Servers
pub mod Create
pub mod Describe
pub mod Listener
pub mod Handlers
