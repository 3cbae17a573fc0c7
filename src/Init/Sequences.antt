-- ===== src/Init/Sequences.antt =====
-- Any sequence of loads and unloads.
use libdatachannel_java.Prelude.{ℕ, Option, ◌≡◌, false, none, List, [], ◌∷◌, arith}
use libdatachannel_java.Native.Event.{Ptr, Ref}
use libdatachannel_java.Native.World.{
  M, World, Env, Globals, pure, ◌>>=◌, ◌>>◌, when◌then◌else◌, read, get_globals,
}
use libdatachannel_java.Init.{
  jni_version, dll_main, jni_on_load, jni_on_unload, initialize_jni, initialize_from,
}
use libdatachannel_java.Init.Life.{loaded, initialize_jni-Loaded, Loaded-globals}

-- The static variables before the first load.
abbrev pub initial : Globals
initial = record { global_jvm = none; jvm_unloading = false; jvm_loaded = false }

pub data Transition : Type 0 where
  load unload : Ref → Transition
  loader : (instance : Ref) (reason : ℕ) (reserved : Option Ptr) → Transition

unfoldable pub transit : Transition → M (Unit {0})
transit (load jvm) = do jni_on_load jvm; pure tt
transit (unload jvm) = jni_on_unload jvm
transit (loader instance reason reserved) = do dll_main instance reason reserved; pure tt

unfoldable pub transit_all : List Transition → M (Unit {0})
transit_all [] = pure tt
transit_all (x ∷ xs) = do transit x; transit_all xs

reload :
    (jvm : Ref) (env : Env) (w : World)
    → env.private_allocator ≡ false
    → w.globals ≡ loaded jvm
    → initialize_jni jvm env w ≡ (jni_version, w)
unfolding initialize_jni initialize_from ◌>>=◌ ◌>>◌ pure read get_globals when◌then◌else◌
reload jvm env w p e = rw (p, e) (ground arith)

-- From any state, in a build without a private allocator: if a load for a JVM answers with the
-- version, then however the machine answers after that, the next load for the same JVM answers with
-- the version, makes no call and changes nothing.
pub initialize_jni_again :
    (jvm : Ref) (env env' : Env) (w : World)
    → env'.private_allocator ≡ false
    → (initialize_jni jvm env w).0 ≡ jni_version
    → initialize_jni jvm env' (initialize_jni jvm env w).1
      ≡ (jni_version, (initialize_jni jvm env w).1)
initialize_jni_again jvm env env' w p v =
    reload jvm env' (initialize_jni jvm env w).1 p
      (Loaded-globals (initialize_jni-Loaded jvm env w) v)
