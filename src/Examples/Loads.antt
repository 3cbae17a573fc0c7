-- ===== src/Examples/Loads.antt =====
-- Loading, unloading and threads on the concrete machine.
use libdatachannel_java.Prelude.{◌==◌, if◌then◌else◌, true, ◌≡◌, refl, none, some, [], ◌∷◌, inr}
use libdatachannel_java.Prelude.Int.{pos, negsuc}
use libdatachannel_java.Native.World.{World, Env}
use libdatachannel_java.Attachment.Fibers.{fls_value}
use libdatachannel_java.Native.Event.{Upcall}
use libdatachannel_java.Logic.Keeps.{upcalls}
use libdatachannel_java.Init.{initialize_jni, jni_on_load, jni_version, get_jni_env_from_jvm}
use libdatachannel_java.Init.Life.{Loaded, initialize_jni-Loaded}
use libdatachannel_java.Init.Sequences.{
  load, unload, loader, transit_all, initial, initialize_jni_again,
}
use libdatachannel_java.Init.Refinement.{
  Phase, running, Steps, Implements, transit_all-Implements, initialize_jni-version,
}
use libdatachannel_java.Init.Progress.{Admits}
use libdatachannel_java.Api.{channel_message, notify}
use libdatachannel_java.Api.Delivery.{Announces}
use libdatachannel_java.Api.Progress.{notify-after_load}
use libdatachannel_java.Init.Attach.{destroy_attachment-get_jni_env_from_jvm}
use libdatachannel_java.Attachment.{destroy_attachment}
use libdatachannel_java.Attachment.Threads.{attached}
use libdatachannel_java.Examples.{machine, start, running_globals}

initialize_jni-Loaded_example : Loaded 2 running_globals (initialize_jni 2 machine start)
initialize_jni-Loaded_example = initialize_jni-Loaded 2 machine start

-- The library before its first load.
abbrev unloaded_start : World
unloaded_start = record start { globals = initial }

first_load : (initialize_jni 1 machine unloaded_start).0 ≡ jni_version
first_load = initialize_jni-version 1 machine unloaded_start refl

initialize_jni_again_example :
    initialize_jni 1 machine (initialize_jni 1 machine unloaded_start).1
    ≡ (jni_version, (initialize_jni 1 machine unloaded_start).1)
initialize_jni_again_example = initialize_jni_again 1 machine machine unloaded_start refl first_load

destroy_attachment-get_jni_env_from_jvm_example :
    attached (destroy_attachment machine (get_jni_env_from_jvm 1 machine start).1).1.trace
    ≡ attached start.trace
destroy_attachment-get_jni_env_from_jvm_example =
    destroy_attachment-get_jni_env_from_jvm 1 machine start refl refl

transit_all-Implements_example :
    (q : Phase) × Steps machine (running 1) (unload 1 ∷ loader 4 1 none ∷ load 2 ∷ []) q
    × Implements q (transit_all (unload 1 ∷ loader 4 1 none ∷ load 2 ∷ []) machine start).1
transit_all-Implements_example =
    transit_all-Implements (unload 1 ∷ loader 4 1 none ∷ load 2 ∷ []) machine start (running 1) refl

machine-Admits : Admits machine 2
machine-Admits = record { attached = λ t. inr (refl, λ t'. refl); stored = λ t. refl }

notify-after_load_example :
    (u : Upcall) × Announces
      (channel_message (pos 2) 4096 (pos 16))
      u
      (notify
        (channel_message (pos 2) 4096 (pos 16))
        (some 200)
        machine
        (jni_on_load 2 machine start).1).1.trace
    × (upcalls
          (notify
            (channel_message (pos 2) 4096 (pos 16))
            (some 200)
            machine
            (jni_on_load 2 machine start).1).1.trace
        ≡ (((jni_on_load 2 machine start).1.callbacks 200).instance_ref, u)
          ∷ upcalls (jni_on_load 2 machine start).1.trace)
notify-after_load_example =
    notify-after_load 2 (channel_message (pos 2) 4096 (pos 16)) 200 machine start refl
      machine-Admits

-- A machine of Windows that keeps fiber-local storage, with a JVM that knows who is attached.
abbrev windows_machine : Env
windows_machine = record machine {
  is_windows = true;
  fls_get_value = fls_value;
  vm_get_env = λ t vm. if attached t == 0 then negsuc 1 else pos 0;
}

abbrev with_key : World
with_key = record start { attachment_key = some 3 }
