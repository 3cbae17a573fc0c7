-- ===== src/Init/Progress.antt =====
-- When a native thread finds its JNIEnv.
use libdatachannel_java.Prelude.{
  ◌≡◌, refl, sym, ◌∙◌, ap, Bool, true, false, Option, is_some, ◌⊎◌, inl, inr,
}
use libdatachannel_java.Prelude.Int.{ℤ, int_eq}
use libdatachannel_java.Native.Event.{Ref, Trace}
use libdatachannel_java.Native.World.{
  M, World, Env, pure, ◌>>=◌, ◌>>◌, when◌then◌else◌, when-run, when-false, read, look, ask,
}
use libdatachannel_java.Native.Calls
use libdatachannel_java.Native.Memory.{get_attachment, set_attachment}
use libdatachannel_java.Attachment.{register_jni_thread}
use libdatachannel_java.Init.{
  jni_ok, jni_edetached, env_if_ok, register_or_detach, attach_and_register, get_jni_env_from_jvm,
}

-- The JVM lets a native thread in: GetEnv answers JNI_OK, or JNI_EDETACHED and then
-- AttachCurrentThreadAsDaemon answers JNI_OK; and it stores a JNIEnv.
pub record Admits (env : Env) (jvm : Ref) : Type 0 where
  pub attached :
      (t : Trace)
      → (env.vm_get_env t jvm ≡ jni_ok)
        ⊎ ((env.vm_get_env t jvm ≡ jni_edetached) × ((t' : Trace) → env.vm_attach t' jvm ≡ jni_ok))
  pub stored : (t : Trace) → is_some (env.current_env t) ≡ true

unfoldable pub Found : Option Ref × World → Type 0
Found r = is_some r.0 ≡ true

module _ (env : Env) (jvm : Ref) (posix : env.is_windows ≡ false) (admits : Admits env jvm) where
  env_if_ok-found : (n : ℤ) (w : World) → n ≡ jni_ok → is_some (env_if_ok n env w).0 ≡ true
  unfolding env_if_ok when◌then◌else◌ look
  env_if_ok-found n w e = rw e (admits.stored w.trace)

  register_jni_thread-posix : (w : World) → (register_jni_thread jvm env w).0 ≡ true
  unfolding register_jni_thread ◌>>=◌ ◌>>◌ read pure get_attachment set_attachment
  register_jni_thread-posix w = ap (λ (m : M Bool). (m env w).0) (when-false _ _ posix)

  register_or_detach-Found : (w : World) → Found (register_or_detach jvm env w)
  unfolding register_or_detach Found ◌>>=◌
  register_or_detach-Found w =
      when-run {A = Option Ref} Found (register_jni_thread jvm env w).0 _ _ env _
        (λ h. env_if_ok-found jni_ok _ refl) (λ h. absurd (cc (h, register_jni_thread-posix w)))

  attach_and_register-Found :
      (w : World)
      → ((t : Trace) → env.vm_attach t jvm ≡ jni_ok)
      → Found (attach_and_register jvm env w)
  unfolding attach_and_register Found Calls.vm_attach_current_thread_as_daemon ◌>>=◌ ask
  attach_and_register-Found w a =
      when-run {A = Option Ref} Found (int_eq (env.vm_attach w.trace jvm) jni_ok) _ _ env _
        (λ h. register_or_detach-Found _) (λ h. env_if_ok-found _ _ (a w.trace))

  pub get_jni_env_from_jvm-Found : (w : World) → Found (get_jni_env_from_jvm jvm env w)
  unfolding get_jni_env_from_jvm Found Calls.vm_get_env ◌>>=◌ ask
  get_jni_env_from_jvm-Found w = elim (admits.attached w.trace) [
    | inl ok ↦
        when-run {A = Option Ref} Found (int_eq (env.vm_get_env w.trace jvm) jni_edetached) _ _ env
          _ (λ h. absurd (cc (sym h ∙ ap (λ n. int_eq n jni_edetached) ok)))
          (λ h. env_if_ok-found _ _ ok)
    | inr (detached, attach) ↦
        when-run {A = Option Ref} Found (int_eq (env.vm_get_env w.trace jvm) jni_edetached) _ _ env
          _ (λ h. attach_and_register-Found _ attach)
          (λ h. absurd (cc (ap (λ n. int_eq n jni_edetached) (sym detached) ∙ h)))
  ]
