-- ===== src/Init/Race/Alone.antt =====
-- The steps of one thread without others are what initialize_jni and JNI_OnUnload do as a whole.
use libdatachannel_java.Prelude.{ℕ, ◌≡◌, sym, subst, false}
use libdatachannel_java.Prelude.Int.{ℤ}
use libdatachannel_java.Native.Event.{Ref}
use libdatachannel_java.Native.World.{World, Env, Globals}
use libdatachannel_java.Init.{initialize_jni, jni_on_unload, is_loaded, jni_version}
use libdatachannel_java.Init.Life.{
  loaded, unloaded, Loaded, success, failure, initialize_jni-Loaded, jni_on_unload-unloaded,
}
use libdatachannel_java.Init.Race.{
  Caller, idle, outside, begin, store_jvm, clear_unloading, start_rtc, set_loaded, set_unloading,
  cleanup, clear_jvm, clear_loaded, System, Step, load, unload,
}

pub data Steps (s : System) : System → Type 0 where
  here : Steps s s
  then : {t u : System} → Steps s t → Step t u → Steps s u

-- No load or unload has begun or it has ended.
abbrev pub resting : Globals → (ℕ → Caller) → System
resting g callers = record { globals = g; owner = outside; callers = callers }

loads :
    (jvm : Ref) (g : Globals) (callers : ℕ → Caller)
    → is_loaded jvm g ≡ false
    → Steps (resting g callers) (resting (loaded jvm) callers)
loads jvm g callers e =
    then
      (then
        (then (then (then here (load (begin jvm e))) (load (store_jvm jvm)))
          (load (clear_unloading jvm)))
        (load (start_rtc jvm)))
      (load (set_loaded jvm))

unloads :
    (g : Globals) (callers : ℕ → Caller)
    → ((i : ℕ) → callers i ≡ idle)
    → Steps (resting g callers) (resting unloaded callers)
unloads g callers all =
    then (then (then (then here (unload set_unloading)) (unload (cleanup all))) (unload clear_jvm))
      (unload clear_loaded)

Loaded-Steps :
    (jvm : Ref) (g : Globals) (callers : ℕ → Caller) (r : ℤ × World)
    → is_loaded jvm g ≡ false
    → Loaded jvm g r
    → r.0 ≡ jni_version
    → Steps (resting g callers) (resting r.1.globals callers)
Loaded-Steps jvm g callers r e (success q) v =
    subst (λ g'. Steps (resting g callers) (resting g' callers)) (sym q) (loads jvm g callers e)
Loaded-Steps jvm g callers r e (failure q) v = absurd cc

-- A load that succeeds takes the static variables where the steps of a load take them.
pub initialize_jni-Steps :
    (jvm : Ref) (callers : ℕ → Caller) (env : Env) (w : World)
    → is_loaded jvm w.globals ≡ false
    → (initialize_jni jvm env w).0 ≡ jni_version
    → Steps (resting w.globals callers) (resting (initialize_jni jvm env w).1.globals callers)
initialize_jni-Steps jvm callers env w e v =
    Loaded-Steps jvm w.globals callers _ e (initialize_jni-Loaded jvm env w) v

-- An unload takes them where the steps of an unload take them, when no thread is in a callback.
pub jni_on_unload-Steps :
    (jvm : Ref) (callers : ℕ → Caller) (env : Env) (w : World)
    → ((i : ℕ) → callers i ≡ idle)
    → Steps (resting w.globals callers) (resting (jni_on_unload jvm env w).1.globals callers)
jni_on_unload-Steps jvm callers env w all =
    subst (λ g. Steps (resting w.globals callers) (resting g callers))
      (sym (jni_on_unload-unloaded jvm env w)) (unloads w.globals callers all)
