-- ===== src/Init/Attach.antt =====
-- A native thread between get_jni_env_from_jvm and its end.
use libdatachannel_java.Prelude.{
  ℕ, ◌+◌, ◌≡◌, refl, Bool, true, false, none, some, arith, if◌then◌else◌,
}
use libdatachannel_java.Native.Event.{Ref}
use libdatachannel_java.Native.World.{
  World, Env, pure, ◌>>=◌, ◌>>◌, when◌then◌else◌, when-run, read, look, emit, ask,
}
use libdatachannel_java.Native.Calls
use libdatachannel_java.Native.Memory.{get_attachment, set_attachment}
use libdatachannel_java.Attachment.{register_jni_thread, destroy_attachment}
use libdatachannel_java.Attachment.Threads.{attached}
use libdatachannel_java.Init.{
  env_if_ok, register_or_detach, attach_and_register, get_jni_env_from_jvm,
}

-- What a thread without an attachment of the library has after the call: either no attachment and
-- none registered, or one, registered for the end of the thread.
pub data Attaches (jvm : Ref) (w : World) : World → Type 0 where
  untouched :
      {w' : World}
      → attached w'.trace ≡ attached w.trace
      → w'.attachment.vm ≡ none
      → Attaches jvm w w'
  registered :
      {w' : World}
      → attached w'.trace ≡ attached w.trace + 1
      → w'.attachment.vm ≡ some jvm
      → Attaches jvm w w'

counted : {b : Bool} {m n : ℕ} → b ≡ true → m ≡ n → (if b then m + 1 else m) ≡ n + 1
counted p e = rw (p, e) refl

uncounted : {b : Bool} {m n : ℕ} → b ≡ false → m ≡ n → (if b then m + 1 else m) ≡ n
uncounted p e = rw p e

module _ (jvm : Ref) (env : Env) (posix : env.is_windows ≡ false) where
  register_or_detach-Attaches :
      (w w' : World)
      → attached w'.trace ≡ attached w.trace + 1
      → Attaches jvm w (register_or_detach jvm env w').1
  unfolding register_or_detach env_if_ok register_jni_thread ◌>>=◌ ◌>>◌ pure read look
      get_attachment set_attachment when◌then◌else◌
  register_or_detach-Attaches w w' e = rw posix (registered e refl)

  attach_and_register-Attaches :
      (w w' : World)
      → attached w'.trace ≡ attached w.trace
      → w'.attachment.vm ≡ none
      → Attaches jvm w (attach_and_register jvm env w').1
  unfolding attach_and_register env_if_ok Calls.vm_attach_current_thread_as_daemon ◌>>=◌ ask pure
      look
  attach_and_register-Attaches w w' e f =
      when-run (λ r. Attaches jvm w r.1) _ _ _ env _
        (λ p. register_or_detach-Attaches w _ (counted p e))
        (λ p.
          when-run (λ r. Attaches jvm w r.1) _ _ _ env _ (λ q. untouched (uncounted p e) f)
            (λ q. untouched (uncounted p e) f))

  pub get_jni_env_from_jvm-Attaches :
      (w : World) → w.attachment.vm ≡ none → Attaches jvm w (get_jni_env_from_jvm jvm env w).1
  unfolding get_jni_env_from_jvm env_if_ok Calls.vm_get_env ◌>>=◌ ask pure look
  get_jni_env_from_jvm-Attaches w f =
      when-run (λ r. Attaches jvm w r.1) _ _ _ env _ (λ p. attach_and_register-Attaches w _ refl f)
        (λ p.
          when-run (λ r. Attaches jvm w r.1) _ _ _ env _ (λ q. untouched refl f)
            (λ q. untouched refl f))

destroy_attachment-Attaches :
    {jvm : Ref} {w w' : World} (env : Env)
    → Attaches jvm w w'
    → attached (destroy_attachment env w').1.trace ≡ attached w.trace
unfolding destroy_attachment Calls.vm_detach_current_thread ◌>>=◌ emit pure get_attachment
destroy_attachment-Attaches env (untouched e f) = rw f e
destroy_attachment-Attaches env (registered e f) = rw (f, e) (omega arith)

-- Where the build is not for Windows: a thread that holds no attachment of the library calls
-- get_jni_env_from_jvm, whatever the JVM answers, and ends, which destroys its ThreadAttachment.
-- Then the thread has been detached exactly as often as it was attached.
pub destroy_attachment-get_jni_env_from_jvm :
    (jvm : Ref) (env : Env) (w : World)
    → env.is_windows ≡ false
    → w.attachment.vm ≡ none
    → attached (destroy_attachment env (get_jni_env_from_jvm jvm env w).1).1.trace
      ≡ attached w.trace
destroy_attachment-get_jni_env_from_jvm jvm env w posix f =
    destroy_attachment-Attaches env (get_jni_env_from_jvm-Attaches jvm env posix w f)
