-- ===== src/Attachment/Threads.antt =====
-- How often a thread was attached to the JVM without being detached.
use libdatachannel_java.Prelude.{ℕ, ◌+◌, ◌-◌, ◌∷◌, [], if◌then◌else◌}
use libdatachannel_java.Prelude.Int.{pos, int_eq}
use libdatachannel_java.Native.Event.{
  Trace, vm_attach_current_thread_as_daemon, vm_detach_current_thread,
}
use libdatachannel_java.Native.World.{when◌then◌else◌}

abbrev pub attached : Trace → ℕ
attached [] = 0
attached (vm_attach_current_thread_as_daemon vm r ∷ t) =
    if int_eq r (pos 0) then attached t + 1 else attached t
attached (vm_detach_current_thread vm ∷ t) = attached t - 1
attached (e ∷ t) = attached t
