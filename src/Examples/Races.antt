-- ===== src/Examples/Races.antt =====
-- A call of get_jni_env that meets an unload.
use libdatachannel_java.Prelude.{ℕ, ◌≡◌, ◌≢◌, refl, some, is_some, true}
use libdatachannel_java.Native.World.{update}
use libdatachannel_java.Init.Race.{
  leaving, cleaned, cleared_jvm, unloading, idle, has_jvm, admitted, using, begin, store_jvm,
  clear_unloading, start_rtc, set_loaded, set_unloading, some_jvm, passed, pass_jvm, System, load,
  unload, call, Reachable, begun, step,
}
use libdatachannel_java.Init.Race.Invariant.{get_jni_env-jvm}

-- JNI_OnUnload sets `jvm_unloading` when thread 3 has tested it.
abbrev met : System
met = record {
  globals = record { global_jvm = some 7; jvm_unloading = true; jvm_loaded = true };
  owner = leaving unloading;
  callers = update (update (update (λ i. idle) 3 has_jvm) 3 admitted) 3 (using (some 7));
}

abbrev meeting : Reachable met
meeting =
    step
      (step
        (step
          (step
            (step
              (step
                (step (step (step begun (load (begin 7 refl))) (load (store_jvm 7)))
                  (load (clear_unloading 7)))
                (load (start_rtc 7)))
              (load (set_loaded 7)))
            (call 3 (some_jvm 7 refl)))
          (call 3 (passed refl)))
        (unload set_unloading))
      (call 3 pass_jvm)

get_jni_env-jvm_example :
    (is_some {A = ℕ} (some 7) ≡ true)
    × (leaving unloading ≢ leaving cleaned)
    × (leaving unloading ≢ leaving cleared_jvm)
get_jni_env-jvm_example = get_jni_env-jvm meeting 3 (some 7) refl
