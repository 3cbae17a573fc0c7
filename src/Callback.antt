-- ===== src/Callback.antt =====
-- jni/src/callback.c: the structure that carries a Java listener as a user pointer of rtc.
-- DISPATCH_JNI of jni/src/util.h: how a handler finds the listener again.
pub mod Dispatch
pub mod Exceptions
pub mod Lifecycle
use libdatachannel_java.Prelude.{Option, none, some}
use libdatachannel_java.Native.Event.{Ptr, Ref, Upcall}
use libdatachannel_java.Native.World.{M, pure, ◌>>=◌, ◌>>◌, read}
use libdatachannel_java.Native.Calls.{
  malloc, free, get_java_vm, new_global_ref, delete_global_ref, upcall,
}
use libdatachannel_java.Native.Memory.{load_callback, store_callback}
use libdatachannel_java.Util.{throw_failed_malloc, throw_native_exception}
use libdatachannel_java.Init.{get_jni_env}

-- From the result of NewGlobalRef on.
finish_callback : Ptr → Option Ref → M (Option Ptr)
finish_callback cb (some g) = do
  store_callback cb (λ c. record c { instance_ref = some g })
  pure (some cb)
finish_callback cb none = do
  store_callback cb (λ c. record c { instance_ref = none })
  free (some cb)
  throw_native_exception "Failed to create global callback reference"
  pure none

-- From the successful `malloc` on.
fill_callback : Option Ref → Ptr → M (Option Ptr)
unfolding finish_callback
fill_callback callback cb = do
  (_, vm) ← get_java_vm
  store_callback cb (λ c. record c { vm = vm })
  instance_ref ← new_global_ref callback
  finish_callback cb instance_ref

start_callback : Option Ref → Option Ptr → M (Option Ptr)
unfolding fill_callback
start_callback callback (some cb) = fill_callback callback cb
start_callback callback none = do throw_failed_malloc "cb"; pure none

unfoldable pub allocate_callback : Option Ref → M (Option Ptr)
unfolding start_callback
allocate_callback callback = do
  size ← read (λ env. env.sizeof_jvm_callback)
  allocated ← malloc size
  start_callback callback allocated

unfoldable pub free_callback : Ptr → M (Unit {0})
free_callback callback = do
  c ← load_callback callback
  delete_global_ref c.instance_ref
  free (some callback)

-- `ptr` is the user pointer that rtc hands to the handler.
unfoldable pub dispatch_jni : Option Ptr → Upcall → M (Unit {0})
dispatch_jni none target = pure tt
dispatch_jni (some cb) target = do
  env ← get_jni_env
  elim env [ none ↦ pure tt | some _ ↦ (do c ← load_callback cb; upcall c.instance_ref target) ]
