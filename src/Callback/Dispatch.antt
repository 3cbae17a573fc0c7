-- ===== src/Callback/Dispatch.antt =====
-- Where a handler's call ends up: at the reference that the listener's structure carries.
use libdatachannel_java.Prelude.{
  ◌≡◌, refl, ◌∙◌, ap, Bool, Option, none, some, ◌∷◌, is_some, if◌then◌else◌,
}
use libdatachannel_java.Native.Event.{Ptr, Ref, Upcall}
use libdatachannel_java.Native.World.{
  M, World, Env, Globals, pure, ◌>>=◌, when◌then◌else◌, emit, get_globals,
}
use libdatachannel_java.Native.Calls
use libdatachannel_java.Native.Memory.{load_callback}
use libdatachannel_java.Logic.Keeps.{Observed, Keeps, Keeps-pure, Keeps-when, observed, upcalls}
use libdatachannel_java.Init.{get_jni_env, get_jni_env_from_jvm}
use libdatachannel_java.Init.Life.{get_jni_env_from_jvm-Keeps, unloaded}
use libdatachannel_java.Callback.{dispatch_jni}

from_globals-Keeps :
    (jvm : Option Ref) (unloading : Bool)
    → Keeps observed (elim jvm as (λ _. M (Option Ref)) [
      | none ↦ pure none
      | some j ↦ when unloading then pure none else get_jni_env_from_jvm j
    ])
from_globals-Keeps none u = Keeps-pure none
from_globals-Keeps (some j) u = Keeps-when u (Keeps-pure none) (get_jni_env_from_jvm-Keeps j)

-- The search for a JNIEnv changes no static variable and no listener, and calls no listener.
pub get_jni_env-Keeps : Keeps observed get_jni_env
unfolding get_jni_env ◌>>=◌ get_globals
get_jni_env-Keeps = record {
  kept = λ env w. (from_globals-Keeps w.globals.global_jvm w.globals.jvm_unloading).kept env w;
}

-- Once the library is unloaded there is no JNIEnv, and no call is made to look for one.
pub get_jni_env-unloaded :
    (env : Env) (w : World) → w.globals ≡ unloaded → get_jni_env env w ≡ (none, w)
unfolding get_jni_env ◌>>=◌ get_globals pure
get_jni_env-unloaded env w e = rw (ap (λ (g : Globals). g.global_jvm) e)

dispatch_from :
    (cb : Ptr) (target : Upcall) (e : Option Ref) (env : Env) (w : World)
    → upcalls
        ((elim e as (λ _. M (Unit {0})) [
          | none ↦ pure tt
          | some _ ↦ (load_callback cb >>= λ c. Calls.upcall c.instance_ref target)
        ])
          env w).1.trace
      ≡ (if is_some e
          then ((w.callbacks cb).instance_ref, target) ∷ upcalls w.trace
          else upcalls w.trace)
unfolding pure ◌>>=◌ load_callback Calls.upcall emit
dispatch_from cb target none env w = refl
dispatch_from cb target (some _) env w = refl

-- A handler calls exactly one method, once, at the reference that the structure carries, if there
-- is a JNIEnv, and none otherwise.
pub upcalls-dispatch_jni :
    (cb : Ptr) (target : Upcall) (env : Env) (w : World)
    → upcalls (dispatch_jni (some cb) target env w).1.trace ≡ (
        if is_some (get_jni_env env w).0
        then ((w.callbacks cb).instance_ref, target) ∷ upcalls w.trace
        else upcalls w.trace)
unfolding dispatch_jni ◌>>=◌
upcalls-dispatch_jni cb target env w =
    dispatch_from cb target (get_jni_env env w).0 env (get_jni_env env w).1
    ∙ ap
        (λ (o : Observed).
          if is_some (get_jni_env env w).0
          then ((o.callbacks cb).instance_ref, target) ∷ o.calls
          else o.calls)
        (get_jni_env-Keeps.kept env w)

-- After the unload a handler does nothing at all.
pub dispatch_jni-unloaded :
    (ptr : Option Ptr) (target : Upcall) (env : Env) (w : World)
    → w.globals ≡ unloaded
    → dispatch_jni ptr target env w ≡ (tt, w)
unfolding dispatch_jni ◌>>=◌ pure get_jni_env get_globals
dispatch_jni-unloaded none target env w e = refl
dispatch_jni-unloaded (some cb) target env w e = rw (ap (λ (g : Globals). g.global_jvm) e)
