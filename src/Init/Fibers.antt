-- ===== src/Init/Fibers.antt =====
-- A native thread of Windows between get_jni_env_from_jvm and its end.
use libdatachannel_java.Prelude.{ℕ, ◌≡◌, []}
use libdatachannel_java.Native.Event
use libdatachannel_java.Native.Event.{Ptr, Trace}
use libdatachannel_java.Native.World.{World, Env}
use libdatachannel_java.Native.Calls
use libdatachannel_java.Logic.Ledger.{Resource}
use libdatachannel_java.Logic.Moves.{Owns}
use libdatachannel_java.Attachment.Threads.{attached}
use libdatachannel_java.Attachment.Fibers.{end_thread}

-- What the thread ends with.
abbrev Ended : (key : ℕ) → Env → (Resource → ℕ) → ℕ → World → Type 0
Ended key env rest n w =
    (attached (end_thread key env w).1.trace ≡ n) × Owns [] rest (end_thread key env w).1.trace
