-- ===== src/Init/Life.antt =====
-- The static variables of init.c through loading and unloading.
use libdatachannel_java.Prelude.{
  ◌≡◌, refl, subst, ◌∙◌, ap, Bool, true, false, none, some, not, arith,
}
use libdatachannel_java.Prelude.Int.{ℤ}
use libdatachannel_java.Native.Event.{Ref}
use libdatachannel_java.Native.World.{
  M, World, Env, Globals, pure, ◌>>=◌, ◌>>◌, when◌then◌else◌, read, emit, get_globals, set_globals,
}
use libdatachannel_java.Native.Calls
use libdatachannel_java.Logic.Keeps.{
  Observed, Keeps, Keeps-pure, Keeps->>=, Keeps->>, Keeps-when, Keeps-read, Keeps-look, observed,
  ask-Keeps, emit-Keeps,
}
use libdatachannel_java.Attachment.{initialize_jni_thread_tracking}
use libdatachannel_java.Attachment.Statics.{tracking-Keeps, register-Keeps, release-Keeps}
use libdatachannel_java.Init.{
  jni_version, jni_err, env_if_ok, register_or_detach, attach_and_register, get_jni_env_from_jvm,
  initialize_private_allocator, load_library, initialize_jni, jni_on_unload, start_library,
  stop_library, is_loaded, initialize_from, jni_ok,
}

env_if_ok-Keeps : (n : ℤ) → Keeps observed (env_if_ok n)
unfolding env_if_ok
env_if_ok-Keeps n = Keeps-when _ (Keeps-look _) (Keeps-pure none)

pub get_jni_env_from_jvm-Keeps : (jvm : Ref) → Keeps observed (get_jni_env_from_jvm jvm)
unfolding get_jni_env_from_jvm attach_and_register register_or_detach Calls.vm_get_env
    Calls.vm_attach_current_thread_as_daemon Calls.vm_detach_current_thread
get_jni_env_from_jvm-Keeps jvm = Keeps->>= (ask-Keeps _ _ (λ a t. refl)) λ n.
    Keeps-when _
      (Keeps->>= (ask-Keeps _ _ (λ a t. refl)) λ m.
        Keeps-when _
          (Keeps->>= (register-Keeps jvm) λ done.
            Keeps-when done (env_if_ok-Keeps jni_ok)
              (Keeps->> (emit-Keeps _ (λ t. refl)) (Keeps-pure none)))
          (env_if_ok-Keeps m))
      (env_if_ok-Keeps n)

-- The values between JNI_OnLoad and JNI_OnUnload, and those after it.
abbrev pub loaded : Ref → Globals
loaded jvm = record { global_jvm = some jvm; jvm_unloading = false; jvm_loaded = true }

abbrev pub unloaded : Globals
unloaded = record { global_jvm = none; jvm_unloading = true; jvm_loaded = false }

-- The outcome of a load: the version and the loaded state, or an error and nothing changed.
pub data Loaded (jvm : Ref) (g : Globals) : ℤ × World → Type 0 where
  success : {w : World} → w.globals ≡ loaded jvm → Loaded jvm g (jni_version, w)
  failure : {w : World} → w.globals ≡ g → Loaded jvm g (jni_err, w)

-- A load that answers with the version has succeeded.
pub Loaded-globals :
    {jvm : Ref} {g : Globals} {r : ℤ × World}
    → Loaded jvm g r
    → r.0 ≡ jni_version
    → r.1.globals ≡ loaded jvm
Loaded-globals (success e) v = e
Loaded-globals (failure e) v = absurd cc

start-Keeps : (jvm : Ref) → Keeps observed (start_library jvm)
unfolding start_library
start-Keeps jvm = Keeps->>= (get_jni_env_from_jvm-Keeps jvm) λ e.
    Keeps->> (emit-Keeps _ (λ t. refl)) (
      Keeps->>= (Keeps-read _) λ ios.
        Keeps-when ios (emit-Keeps _ (λ t. refl))
          (Keeps->> (emit-Keeps _ (λ t. refl)) (emit-Keeps _ (λ t. refl))))

load_library-Loaded :
    (jvm : Ref) (g : Globals) (env : Env) (w : World) → Loaded jvm g (load_library jvm env w)
unfolding load_library ◌>>=◌ ◌>>◌ get_globals set_globals pure
load_library-Loaded jvm g env w = success (
    ap (λ (o : Observed). record (o.globals) { jvm_loaded = true })
      ((start-Keeps jvm).kept env
        (record w { globals = record w.globals { global_jvm = some jvm; jvm_unloading = false } })))

is_loaded-loaded : (jvm : Ref) (g : Globals) → is_loaded jvm g ≡ true → g ≡ loaded jvm
is_loaded-loaded jvm g e = ground arith

module _ (jvm : Ref) (g : Globals) (env : Env) (w : World) (e : w.globals ≡ g) where
  -- The two tests of initialize_jni.
  tracked-Loaded :
      (tracking : Bool) (w' : World)
      → w'.globals ≡ g
      → Loaded jvm g ((when not tracking then pure jni_err else load_library jvm) env w')
  unfolding when◌then◌else◌ pure
  tracked-Loaded true w' e' = load_library-Loaded jvm g env w'
  tracked-Loaded false w' e' = failure e'

  tested-Loaded :
      (b : Bool)
      → is_loaded jvm g ≡ b
      → Loaded jvm g (
          (when b
              then pure jni_version
              else (initialize_jni_thread_tracking >>= λ tracking.
                  when not tracking then pure jni_err else load_library jvm))
            env w)
  unfolding when◌then◌else◌ ◌>>=◌ pure
  tested-Loaded true t = success (e ∙ is_loaded-loaded jvm g t)
  tested-Loaded false t =
      tracked-Loaded (initialize_jni_thread_tracking env w).0
        (initialize_jni_thread_tracking env w).1
        (ap (λ (o : Observed). o.globals) (tracking-Keeps.kept env w) ∙ e)

  initialize_from-Loaded : Loaded jvm g (initialize_from jvm g env w)
  unfolding initialize_from
  initialize_from-Loaded = tested-Loaded (is_loaded jvm g) refl

allocator-Keeps : Keeps observed initialize_private_allocator
unfolding initialize_private_allocator Calls.crypto_get_mem_functions Calls.crypto_set_mem_functions
allocator-Keeps = Keeps->>= (ask-Keeps _ _ (λ a t. refl)) λ installed.
    Keeps-when installed (Keeps-pure true)
      (Keeps->>= (ask-Keeps _ _ (λ a t. refl)) λ n. Keeps-pure _)

stop-Keeps : (jvm : Ref) → Keeps observed (stop_library jvm)
unfolding stop_library
stop-Keeps jvm =
    Keeps->> (emit-Keeps _ (λ t. refl))
      (Keeps->>= (get_jni_env_from_jvm-Keeps jvm) λ e. emit-Keeps _ (λ t. refl))

-- Unloading ends in the unloaded state, from any state.
pub jni_on_unload-unloaded :
    (jvm : Ref) (env : Env) (w : World) → (jni_on_unload jvm env w).1.globals ≡ unloaded
unfolding jni_on_unload ◌>>=◌ ◌>>◌ get_globals set_globals emit
jni_on_unload-unloaded jvm env w =
    ap (λ (o : Observed). o.globals) (release-Keeps.kept env _)
    ∙ ap (λ (o : Observed). record (o.globals) { global_jvm = none; jvm_loaded = false })
        ((stop-Keeps jvm).kept env
          (record w { globals = record w.globals { jvm_unloading = true } }))

allocator_ready-Keeps :
    (b : Bool) → Keeps observed (when b then initialize_private_allocator else pure true)
allocator_ready-Keeps b = Keeps-when b allocator-Keeps (Keeps-pure true)

ready-Loaded :
    (jvm : Ref) (g : Globals) (env : Env) (w : World) (ready : Bool)
    → w.globals ≡ g
    → Loaded jvm g (
        (when not ready then pure jni_err else (get_globals >>= λ g'. initialize_from jvm g')) env
          w)
unfolding when◌then◌else◌ ◌>>=◌ pure get_globals
ready-Loaded jvm g env w true e =
    subst (λ h. Loaded jvm h (initialize_from jvm w.globals env w)) e
      (initialize_from-Loaded jvm w.globals env w refl)
ready-Loaded jvm g env w false e = failure e

-- initialize_jni, and with it JNI_OnLoad, ends in the loaded state and answers with the version, or
-- answers with an error and has changed no static variable.
pub initialize_jni-Loaded :
    (jvm : Ref) (env : Env) (w : World) → Loaded jvm w.globals (initialize_jni jvm env w)
unfolding initialize_jni ◌>>=◌ read
initialize_jni-Loaded jvm env w =
    let m : M Bool = when env.private_allocator then initialize_private_allocator else pure true in
    ready-Loaded jvm w.globals env (m env w).1 (m env w).0
      (ap (λ (o : Observed). o.globals) ((allocator_ready-Keeps env.private_allocator).kept env w))
