-- ===== src/Native.antt =====
-- What the native code of jni/src runs against: the calls that it makes, recorded as a trace, and
-- the machine that answers them.
pub mod Event
pub mod World
pub mod Calls
pub mod Memory
