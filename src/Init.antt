-- ===== src/Init.antt =====
-- jni/src/init.c: the library's life between JNI_OnLoad and JNI_OnUnload, and how native code finds
-- the JNIEnv of its thread. jni/src/private_allocator.cpp: when OpenSSL's hooks are set.
-- jni/src/windows_entry.c: DllMain.
pub mod Life
pub mod Sequences
pub mod Refinement
pub mod Progress
pub mod Attach
pub mod Search
pub mod Race
pub mod Fibers
use libdatachannel_java.Prelude.{ℕ, Bool, true, false, Option, none, some, not, ◌&&◌, ◌==◌, is_some}
use libdatachannel_java.Prelude.Int.{ℤ, int_eq, pos, negsuc}
pub use libdatachannel_java.Jni.{jni_ok, jni_err, jni_edetached}
use libdatachannel_java.Jni.{jni_version_1_6}
use libdatachannel_java.Native.Event.{
  Ptr, Ref, java_log, module_on_load, module_on_unload, rtc_init_logger, rtc_preload, rtc_cleanup,
  rtc_set_thread_pool_size, illegal_state_exception,
}
use libdatachannel_java.Native.World.{
  M, Globals, pure, ◌>>=◌, ◌>>◌, when◌then◌else◌, read, emit, look, get_globals, set_globals,
}
use libdatachannel_java.Native.Calls.{
  vm_get_env, vm_attach_current_thread_as_daemon, vm_detach_current_thread, get_java_vm, find_class,
  throw, crypto_get_mem_functions, crypto_set_mem_functions,
}
use libdatachannel_java.Attachment.{
  initialize_jni_thread_tracking, register_jni_thread, release_jni_thread_tracking,
}

abbrev pub jni_version : ℤ
jni_version = jni_version_1_6

-- DllMain of jni/src/windows_entry.c: nothing happens under the loader's lock.
unfoldable pub dll_main : (instance : Ref) (reason : ℕ) (reserved : Option Ptr) → M ℤ
dll_main instance reason reserved = pure (pos 1)

env_if_ok : ℤ → M (Option Ref)
env_if_ok result = when int_eq result jni_ok then look (λ env t. env.current_env t) else pure none

register_or_detach : Ref → M (Option Ref)
unfolding env_if_ok
register_or_detach jvm = do
  registered ← register_jni_thread jvm
  when registered then env_if_ok jni_ok else (do vm_detach_current_thread jvm; pure none)

attach_and_register : Ref → M (Option Ref)
unfolding register_or_detach
attach_and_register jvm = do
  result ← vm_attach_current_thread_as_daemon jvm
  when int_eq result jni_ok then register_or_detach jvm else env_if_ok result

unfoldable pub get_jni_env_from_jvm : Ref → M (Option Ref)
unfolding env_if_ok attach_and_register
get_jni_env_from_jvm jvm = do
  result ← vm_get_env jvm
  when int_eq result jni_edetached then attach_and_register jvm else env_if_ok result

-- `global_JVM == NULL || jvm_unloading` fails at once.
unfoldable pub get_jni_env : M (Option Ref)
get_jni_env = do
  g ← get_globals
  elim g.global_jvm [
    | none ↦ pure none
    | some jvm ↦ when g.jvm_unloading then pure none else get_jni_env_from_jvm jvm
  ]

unfoldable pub logger_callback : ℤ → Option Ptr → M (Unit {0})
logger_callback level none = pure tt
logger_callback level (some message) = do
  env ← get_jni_env
  elim env [ none ↦ pure tt | some _ ↦ emit (java_log level message) ]

unfoldable pub initialize_private_allocator : M Bool
initialize_private_allocator = do
  installed ← crypto_get_mem_functions
  when installed
      then pure true
      else (do result ← crypto_set_mem_functions; pure (not (int_eq result (pos 0))))

-- `global_JVM == jvm`
abbrev pub is_jvm : Ref → Option Ref → Bool
is_jvm jvm none = false
is_jvm jvm (some other) = other == jvm

start_library : Ref → M (Unit {0})
start_library jvm = do
  env ← get_jni_env_from_jvm jvm
  emit (module_on_load env)
  ios ← read (λ env. env.is_ios)
  when ios then emit (rtc_set_thread_pool_size 2) else (do emit rtc_init_logger; emit rtc_preload)

load_library : Ref → M ℤ
unfolding start_library
load_library jvm = do
  g ← get_globals
  set_globals (record g { global_jvm = some jvm; jvm_unloading = false })
  start_library jvm
  g' ← get_globals
  set_globals (record g' { jvm_loaded = true })
  pure jni_version

-- `jvm_loaded && global_JVM == jvm && !jvm_unloading`
abbrev pub is_loaded : Ref → Globals → Bool
is_loaded jvm g = g.jvm_loaded && (is_jvm jvm g.global_jvm && not g.jvm_unloading)

-- From the static variables on.
initialize_from : Ref → Globals → M ℤ
unfolding load_library
initialize_from jvm g = when is_loaded jvm g then pure jni_version else (do
  tracking ← initialize_jni_thread_tracking
  when not tracking then pure jni_err else load_library jvm)

unfoldable pub initialize_jni : Ref → M ℤ
unfolding initialize_from
initialize_jni jvm = do
  private ← read (λ env. env.private_allocator)
  ready ← when private then initialize_private_allocator else pure true
  when not ready then pure jni_err else (do g ← get_globals; initialize_from jvm g)

unfoldable pub jni_on_load : Ref → M ℤ
jni_on_load jvm = initialize_jni jvm

throw_unresolved : M (Unit {0})
throw_unresolved = do
  exception_class ← find_class "java/lang/IllegalStateException"
  elim exception_class [
    | none ↦ pure tt
    | some _ ↦
        throw (illegal_state_exception "Unable to resolve JavaVM for libdatachannel initialization")
  ]

unfoldable pub initialize_native : M (Unit {0})
unfolding throw_unresolved
initialize_native = do
  (result, jvm) ← get_java_vm
  when not (int_eq result jni_ok && is_some jvm)
      then throw_unresolved
      else elim jvm [ none ↦ pure tt | some j ↦ (do initialize_jni j; pure tt) ]

stop_library : Ref → M (Unit {0})
stop_library jvm = do emit rtc_cleanup; env ← get_jni_env_from_jvm jvm; emit (module_on_unload env)

unfoldable pub jni_on_unload : Ref → M (Unit {0})
unfolding stop_library
jni_on_unload jvm = do
  g ← get_globals
  set_globals (record g { jvm_unloading = true })
  stop_library jvm
  g' ← get_globals
  set_globals (record g' { global_jvm = none; jvm_loaded = false })
  release_jni_thread_tracking
