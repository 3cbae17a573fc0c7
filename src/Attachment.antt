-- ===== src/Attachment.antt =====
-- jni/src/thread_attachment.cpp: which threads the library attached to the JVM, and how they leave.
-- `is_windows` chooses between the two branches of `#ifdef _WIN32`.
pub mod Statics
pub mod Threads
pub mod Fibers
use libdatachannel_java.Prelude.{ℕ, Bool, true, false, Option, none, some, not, ◌==◌, is_some}
use libdatachannel_java.Prelude.Int.{int_eq, pos}
use libdatachannel_java.Native.Event.{Ptr, Ref, fls_free}
use libdatachannel_java.Native.World.{
  M, ThreadAttachment, pure, ◌>>=◌, ◌>>◌, when◌then◌else◌, read, emit,
}
use libdatachannel_java.Native.Calls.{
  malloc, free, vm_get_env, vm_detach_current_thread, fls_alloc, fls_get_value, fls_set_value,
  get_current_thread_id,
}
use libdatachannel_java.Native.Memory.{
  load_attachment, store_attachment, get_attachment, set_attachment, get_attachment_key,
  set_attachment_key,
}

-- `static_cast<ThreadAttachment*>(value)` of the Windows branch.
unfoldable pub detach_thread : Ptr → M (Unit {0})
detach_thread value = do
  attachment ← load_attachment value
  self ← get_current_thread_id
  when attachment.owner == self
      then elim attachment.vm [
        | none ↦ pure tt
        | some vm ↦ do
          result ← vm_get_env vm
          when int_eq result (pos 0) then vm_detach_current_thread vm else pure tt
      ]
      else pure tt
  free (some value)

-- `~ThreadAttachment()` of the other branch, at the end of a thread.
unfoldable pub destroy_attachment : M (Unit {0})
destroy_attachment = do
  attachment ← get_attachment
  elim attachment.vm [ none ↦ pure tt | some vm ↦ vm_detach_current_thread vm ]

allocate_key : Option ℕ → M Bool
allocate_key (some key) = pure true
allocate_key none = do key ← fls_alloc; set_attachment_key key; pure (is_some key)

unfoldable pub initialize_jni_thread_tracking : M Bool
unfolding allocate_key
initialize_jni_thread_tracking = do
  windows ← read (λ env. env.is_windows)
  when windows then (do key ← get_attachment_key; allocate_key key) else pure true

-- A new structure is filled, and stays if Windows keeps it.
keep_attachment : Ref → ℕ → Option Ptr → M Bool
keep_attachment jvm key none = pure false
keep_attachment jvm key (some p) = do
  self ← get_current_thread_id
  store_attachment p (λ _. record { vm = some jvm; owner = self })
  done ← fls_set_value key (some p)
  when done then pure true else (do free (some p); pure false)

-- A thread that has no structure yet gets one.
add_attachment : Ref → ℕ → M Bool
unfolding keep_attachment
add_attachment jvm key = do
  size ← read (λ env. env.sizeof_thread_attachment)
  allocated ← malloc size
  keep_attachment jvm key allocated

register_under : Ref → Option ℕ → M Bool
unfolding add_attachment
register_under jvm none = pure false
register_under jvm (some key) = do
  old ← fls_get_value key
  elim old [
    | some p ↦ (do store_attachment p (λ a. record a { vm = some jvm }); pure true)
    | none ↦ add_attachment jvm key
  ]

unfoldable pub register_jni_thread : Ref → M Bool
unfolding register_under
register_jni_thread jvm = do
  windows ← read (λ env. env.is_windows)
  when windows then (do key ← get_attachment_key; register_under jvm key) else do
    attachment ← get_attachment
    set_attachment (record attachment { vm = some jvm })
    pure true

release_key : Option ℕ → M (Unit {0})
release_key none = pure tt
release_key (some key) = do set_attachment_key none; emit (fls_free key)

unfoldable pub release_jni_thread_tracking : M (Unit {0})
unfolding release_key
release_jni_thread_tracking = do
  windows ← read (λ env. env.is_windows)
  when windows then (do key ← get_attachment_key; release_key key) else pure tt
