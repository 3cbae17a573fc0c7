-- ===== src/Attachment/Statics.antt =====
-- The static variables of jni/src/init.c under thread tracking.
use libdatachannel_java.Prelude.{ℕ, refl, true, false, Option, none, some}
use libdatachannel_java.Native.Event.{Ptr, Ref}
use libdatachannel_java.Native.Calls
use libdatachannel_java.Native.Memory.{
  store_attachment, get_attachment, set_attachment, get_attachment_key, set_attachment_key,
}
use libdatachannel_java.Logic.Keeps.{
  Keeps, Keeps-pure, Keeps->>=, Keeps->>, Keeps-when, Keeps-read, observed, ask-Keeps, emit-Keeps,
}
use libdatachannel_java.Attachment.{
  keep_attachment, allocate_key, initialize_jni_thread_tracking, add_attachment, register_under,
  register_jni_thread, release_key, release_jni_thread_tracking,
}

get_attachment_key-Keeps : Keeps observed get_attachment_key
unfolding get_attachment_key
get_attachment_key-Keeps = record { kept = λ env w. refl }

allocate_key-Keeps : (k : Option ℕ) → Keeps observed (allocate_key k)
unfolding allocate_key Calls.fls_alloc set_attachment_key
allocate_key-Keeps (some k) = Keeps-pure true
allocate_key-Keeps none =
    Keeps->>= (ask-Keeps _ _ (λ a t. refl))
      λ k. Keeps->> (record { kept = λ env w. refl }) (Keeps-pure _)

pub tracking-Keeps : Keeps observed initialize_jni_thread_tracking
unfolding initialize_jni_thread_tracking
tracking-Keeps = Keeps->>= (Keeps-read _) λ windows.
    Keeps-when windows (Keeps->>= get_attachment_key-Keeps allocate_key-Keeps) (Keeps-pure true)

keep_attachment-Keeps :
    (jvm : Ref) (k : ℕ) (p : Option Ptr) → Keeps observed (keep_attachment jvm k p)
unfolding keep_attachment Calls.get_current_thread_id Calls.fls_set_value Calls.free
    store_attachment
keep_attachment-Keeps jvm k none = Keeps-pure false
keep_attachment-Keeps jvm k (some p) = Keeps->>= (ask-Keeps _ _ (λ a t. refl)) λ self.
    Keeps->> (record { kept = λ env w. refl })
      (Keeps->>= (ask-Keeps _ _ (λ a t. refl)) λ done.
        Keeps-when done (Keeps-pure true) (Keeps->> (emit-Keeps _ (λ t. refl)) (Keeps-pure false)))

add_attachment-Keeps : (jvm : Ref) (k : ℕ) → Keeps observed (add_attachment jvm k)
unfolding add_attachment Calls.malloc
add_attachment-Keeps jvm k =
    Keeps->>= (Keeps-read _)
      λ size. Keeps->>= (ask-Keeps _ _ (λ a t. refl)) (keep_attachment-Keeps jvm k)

register_under-Keeps : (jvm : Ref) (k : Option ℕ) → Keeps observed (register_under jvm k)
unfolding register_under Calls.fls_get_value store_attachment
register_under-Keeps jvm none = Keeps-pure false
register_under-Keeps jvm (some k) = Keeps->>= (ask-Keeps _ _ (λ a t. refl)) (elim [
  | none ↦ add_attachment-Keeps jvm k
  | some p ↦ Keeps->> (record { kept = λ env w. refl }) (Keeps-pure true)
])

pub register-Keeps : (jvm : Ref) → Keeps observed (register_jni_thread jvm)
unfolding register_jni_thread get_attachment set_attachment
register-Keeps jvm = Keeps->>= (Keeps-read _) λ windows.
    Keeps-when windows (Keeps->>= get_attachment_key-Keeps (register_under-Keeps jvm)) (
      Keeps->>= (record { kept = λ env w. refl })
        λ a. Keeps->> (record { kept = λ env w. refl }) (Keeps-pure true))

release_key-Keeps : (k : Option ℕ) → Keeps observed (release_key k)
unfolding release_key set_attachment_key
release_key-Keeps none = Keeps-pure tt
release_key-Keeps (some k) = Keeps->> (record { kept = λ env w. refl }) (emit-Keeps _ (λ t. refl))

pub release-Keeps : Keeps observed release_jni_thread_tracking
unfolding release_jni_thread_tracking
release-Keeps = Keeps->>= (Keeps-read _) λ windows.
    Keeps-when windows (Keeps->>= get_attachment_key-Keeps release_key-Keeps) (Keeps-pure tt)
