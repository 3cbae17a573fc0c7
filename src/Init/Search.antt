-- ===== src/Init/Search.antt =====
-- What the search for a JNIEnv leaves alone where the build is not for Windows.
use libdatachannel_java.Prelude.{◌≡◌, refl, ◌∙◌, Bool, false, Option, none, some, ℕ, List, ◌∷◌}
use libdatachannel_java.Prelude.Int.{ℤ}
use libdatachannel_java.Native.Event.{Ref, Event, Trace}
use libdatachannel_java.Native.World.{
  World, Env, M, pure, ◌>>=◌, ◌>>◌, when◌then◌else◌, when-run, read, look, emit, ask, get_globals,
}
use libdatachannel_java.Native.Calls
use libdatachannel_java.Native.Memory.{get_attachment, set_attachment}
use libdatachannel_java.Logic.Ledger.{Resource}
use libdatachannel_java.Logic.Moves.{Owns, Owns-∷}
use libdatachannel_java.Logic.Keeps.{upcalls}
use libdatachannel_java.Logic.Stays.{pointer_set}
use libdatachannel_java.Attachment.{register_jni_thread}
use libdatachannel_java.Init.{
  jni_ok, env_if_ok, register_or_detach, attach_and_register, get_jni_env_from_jvm, get_jni_env,
}

-- The listeners, the user pointers and the ledger are the same.
pub record Unseen (w w' : World) : Type 1 where
  pub callbacks : w'.callbacks ≡ w.callbacks
  pub calls : upcalls w'.trace ≡ upcalls w.trace
  pub pointers : (h : ℤ) → pointer_set w'.trace h ≡ pointer_set w.trace h
  pub owns : {P : List Resource} {rest : Resource → ℕ} → Owns P rest w.trace → Owns P rest w'.trace

pub Unseen-refl : (w : World) → Unseen w w
Unseen-refl w = record { callbacks = refl; calls = refl; pointers = λ h. refl; owns = λ o. o }

-- A call that obtains nothing, gives nothing back, calls no listener and sets no user pointer.
record IsPlain (e : Event) : Type 0 where
  calls : (t : Trace) → upcalls (e ∷ t) ≡ upcalls t
  pointers : (t : Trace) (h : ℤ) → pointer_set (e ∷ t) h ≡ pointer_set t h
  owns : {P : List Resource} {rest : Resource → ℕ} {t : Trace} → Owns P rest t → Owns P rest (e ∷ t)

IsPlain-get_env : (jvm : Ref) (n : ℤ) → IsPlain (Event.vm_get_env jvm n)
IsPlain-get_env jvm n = record {
  calls = λ t. refl;
  pointers = λ t h. refl;
  owns = λ o. Owns-∷ _ _ o tt (λ r. refl);
}

IsPlain-attach : (jvm : Ref) (n : ℤ) → IsPlain (Event.vm_attach_current_thread_as_daemon jvm n)
IsPlain-attach jvm n = record {
  calls = λ t. refl;
  pointers = λ t h. refl;
  owns = λ o. Owns-∷ _ _ o tt (λ r. refl);
}

IsPlain-detach : (jvm : Ref) → IsPlain (Event.vm_detach_current_thread jvm)
IsPlain-detach jvm = record {
  calls = λ t. refl;
  pointers = λ t h. refl;
  owns = λ o. Owns-∷ _ _ o tt (λ r. refl);
}

-- One such call after what leaves no trace either.
Unseen-∷ :
    {w w' : World} (e : Event)
    → IsPlain e
    → Unseen w w'
    → Unseen w (record w' { trace = e ∷ w'.trace })
Unseen-∷ {w' = w'} e p u = record {
  callbacks = u.callbacks;
  calls = p.calls w'.trace ∙ u.calls;
  pointers = λ h. p.pointers w'.trace h ∙ u.pointers h;
  owns = λ o. p.owns (u.owns o);
}

module _ (jvm : Ref) (env : Env) (posix : env.is_windows ≡ false) {w : World} where
  env_if_ok-Unseen : (n : ℤ) (w' : World) → Unseen w w' → Unseen w (env_if_ok n env w').1
  unfolding env_if_ok look pure
  env_if_ok-Unseen n w' u =
      when-run (λ (r : Option Ref × World). Unseen w r.1) _ _ _ env w' (λ h. u) (λ h. u)

  register_jni_thread-Unseen :
      (w' : World) → Unseen w w' → Unseen w (register_jni_thread jvm env w').1
  unfolding register_jni_thread ◌>>=◌ ◌>>◌ read pure get_attachment set_attachment
  register_jni_thread-Unseen w' u =
      when-run (λ (r : Bool × World). Unseen w r.1) env.is_windows _ _ env w'
        (λ h. absurd (cc (h, posix)))
        (λ h. record {
          callbacks = u.callbacks;
          calls = u.calls;
          pointers = u.pointers;
          owns = u.owns;
        })

  register_or_detach-Unseen :
      (w' : World) → Unseen w w' → Unseen w (register_or_detach jvm env w').1
  unfolding register_or_detach ◌>>=◌ ◌>>◌ emit pure Calls.vm_detach_current_thread
  register_or_detach-Unseen w' u =
      when-run (λ (r : Option Ref × World). Unseen w r.1) _ _ _ env _
        (λ h. env_if_ok-Unseen jni_ok _ (register_jni_thread-Unseen w' u))
        (λ h. Unseen-∷ _ (IsPlain-detach jvm) (register_jni_thread-Unseen w' u))

  attach_and_register-Unseen :
      (w' : World) → Unseen w w' → Unseen w (attach_and_register jvm env w').1
  unfolding attach_and_register ◌>>=◌ ask Calls.vm_attach_current_thread_as_daemon
  attach_and_register-Unseen w' u =
      let u' = Unseen-∷ _ (IsPlain-attach jvm (env.vm_attach w'.trace jvm)) u in
      when-run (λ (r : Option Ref × World). Unseen w r.1) _ _ _ env _
        (λ h. register_or_detach-Unseen _ u')
        (λ h. env_if_ok-Unseen (env.vm_attach w'.trace jvm) _ u')

  get_jni_env_from_jvm-Unseen :
      (w' : World) → Unseen w w' → Unseen w (get_jni_env_from_jvm jvm env w').1
  unfolding get_jni_env_from_jvm ◌>>=◌ ask Calls.vm_get_env
  get_jni_env_from_jvm-Unseen w' u =
      let u' = Unseen-∷ _ (IsPlain-get_env jvm (env.vm_get_env w'.trace jvm)) u in
      when-run (λ (r : Option Ref × World). Unseen w r.1) _ _ _ env _
        (λ h. attach_and_register-Unseen _ u')
        (λ h. env_if_ok-Unseen (env.vm_get_env w'.trace jvm) _ u')

found-Unseen :
    (jvm : Option Ref) (unloading : Bool) (env : Env) (w : World)
    → env.is_windows ≡ false
    → Unseen w
        ((elim jvm as (λ _. M (Option Ref)) [
          | none ↦ pure none
          | some j ↦ when unloading then pure none else get_jni_env_from_jvm j
        ])
          env w).1
unfolding pure
found-Unseen none b env w posix = Unseen-refl w
found-Unseen (some j) b env w posix =
    when-run (λ (r : Option Ref × World). Unseen w r.1) b _ _ env w (λ h. Unseen-refl w)
      (λ h. get_jni_env_from_jvm-Unseen j env posix w (Unseen-refl w))

pub get_jni_env-Unseen :
    (env : Env) (w : World) → env.is_windows ≡ false → Unseen w (get_jni_env env w).1
unfolding get_jni_env ◌>>=◌ get_globals
get_jni_env-Unseen env w posix =
    found-Unseen w.globals.global_jvm w.globals.jvm_unloading env w posix
