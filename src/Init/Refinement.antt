-- ===== src/Init/Refinement.antt =====
-- The library's life as an abstract machine of three phases, which init.c implements.
use libdatachannel_java.Prelude.{
  ◌≡◌, refl, ◌∙◌, ap, Bool, true, false, ◌||◌, not, none, some, Option, ℕ, List, [], ◌∷◌, inl, inr,
  Bool-cases, arith,
}
use libdatachannel_java.Prelude.Int.{ℤ}
use libdatachannel_java.Native.Event.{Ptr, Ref}
use libdatachannel_java.Native.World.{
  M, World, Env, Globals, pure, ◌>>=◌, ◌>>◌, when◌then◌else◌, when-run, when-false, read,
  get_globals,
}
use libdatachannel_java.Attachment.{initialize_jni_thread_tracking}
use libdatachannel_java.Init.{
  jni_version, jni_err, jni_on_load, initialize_private_allocator, initialize_jni, initialize_from,
  is_loaded, load_library, get_jni_env, get_jni_env_from_jvm, dll_main,
}
use libdatachannel_java.Init.Life.{
  loaded, unloaded, Loaded, success, failure, initialize_jni-Loaded, jni_on_unload-unloaded,
}
use libdatachannel_java.Init.Sequences.{
  initial, Transition, load, unload, loader, transit, transit_all,
}

pub data Phase : Type 0 where
  fresh : Phase
  running : Ref → Phase
  stopped : Phase

abbrev pub globals_of : Phase → Globals
globals_of fresh = initial
globals_of (running jvm) = loaded jvm
globals_of stopped = unloaded

-- A load may fail only where the build has a private allocator or the platform is Windows.
pub data Step (env : Env) : Phase → Transition → Phase → Type 0 where
  loads : (p : Phase) (jvm : Ref) → Step env p (load jvm) (running jvm)
  load_fails :
      (p : Phase) (jvm : Ref)
      → env.private_allocator || env.is_windows ≡ true
      → Step env p (load jvm) p
  unloads : (p : Phase) (jvm : Ref) → Step env p (unload jvm) stopped
  ignores :
      (p : Phase) (instance : Ref) (reason : ℕ) (reserved : Option Ptr)
      → Step env p (loader instance reason reserved) p

pub data Steps (env : Env) : Phase → List Transition → Phase → Type 0 where
  done : {p : Phase} → Steps env p [] p
  next :
      {p q r : Phase} {x : Transition} {xs : List Transition}
      → Step env p x q
      → Steps env q xs r
      → Steps env p (x ∷ xs) r

-- How a native thread finds its JNIEnv in each phase.
abbrev pub find_env : Phase → M (Option Ref)
find_env (running jvm) = get_jni_env_from_jvm jvm
find_env fresh = pure none
find_env stopped = pure none

-- `w` is in phase `p`: the static variables say so, and so does the search for a JNIEnv.
pub record Implements (p : Phase) (w : World) : Type 1 where
  pub globals : w.globals ≡ globals_of p
  pub found : (env : Env) → get_jni_env env w ≡ find_env p env w

-- What `get_jni_env` does with the static variables that it has read.
abbrev find_from : Globals → M (Option Ref)
find_from g = elim g.global_jvm as (λ _. M (Option Ref)) [
  | none ↦ pure none
  | some jvm ↦ when g.jvm_unloading then pure none else get_jni_env_from_jvm jvm
]

find_from-find_env :
    (p : Phase) (env : Env) (w : World) → find_from (globals_of p) env w ≡ find_env p env w
unfolding when◌then◌else◌
find_from-find_env fresh env w = refl
find_from-find_env (running jvm) env w = refl
find_from-find_env stopped env w = refl

pub globals-Implements : (p : Phase) (w : World) → w.globals ≡ globals_of p → Implements p w
unfolding get_jni_env ◌>>=◌ get_globals
globals-Implements p w e = record {
  globals = e;
  found = λ env. ap (λ g. find_from g env w) e ∙ find_from-find_env p env w;
}

load_library-version :
    (jvm : Ref) (env : Env) (w : World) → (load_library jvm env w).0 ≡ jni_version
unfolding load_library ◌>>=◌ ◌>>◌ pure
load_library-version jvm env w = refl

tracking_posix :
    (env : Env) (w : World)
    → env.is_windows ≡ false
    → initialize_jni_thread_tracking env w ≡ (true, w)
unfolding initialize_jni_thread_tracking ◌>>=◌ read pure
tracking_posix env w e = ap (λ (m : M Bool). m env w) (when-false _ _ e)

initialize_from-version :
    (jvm : Ref) (g : Globals) (env : Env) (w : World)
    → env.is_windows ≡ false
    → (initialize_from jvm g env w).0 ≡ jni_version
unfolding initialize_from ◌>>=◌ pure when◌then◌else◌
initialize_from-version jvm g env w e =
    when-run (λ r. r.0 ≡ jni_version) (is_loaded jvm g) _ _ env w (λ h. refl)
      (λ h.
        ap
          (λ (r : Bool × World). ((when not r.0 then pure jni_err else load_library jvm) env r.1).0)
          (tracking_posix env w e)
        ∙ load_library-version jvm env w)

pub initialize_jni-version :
    (jvm : Ref) (env : Env) (w : World)
    → env.private_allocator || env.is_windows ≡ false
    → (initialize_jni jvm env w).0 ≡ jni_version
unfolding initialize_jni ◌>>=◌ read pure when◌then◌else◌ get_globals
initialize_jni-version jvm env w e =
    ap
      (λ (m : M Bool).
        ((m >>= λ ready.
        when not ready then pure jni_err else (get_globals >>= λ g. initialize_from jvm g))
          env w).0)
      (when-false initialize_private_allocator (pure true) (ground arith))
    ∙ initialize_from-version jvm w.globals env w (ground arith)

Loaded-Step :
    {env : Env} {jvm : Ref} (p : Phase) {g : Globals} {r : ℤ × World}
    → Loaded jvm g r
    → g ≡ globals_of p
    → (env.private_allocator || env.is_windows ≡ false → r.0 ≡ jni_version)
    → (q : Phase) × Step env p (load jvm) q × (r.1.globals ≡ globals_of q)
Loaded-Step {jvm} p (success e) g v = (running jvm, loads p jvm, e)
Loaded-Step {env} {jvm} p (failure e) g v =
    elim (Bool-cases (env.private_allocator || env.is_windows)) [
      | inl b ↦ (p, load_fails p jvm b, e ∙ g)
      | inr b ↦ cc (v b)
    ]

transit-Step :
    (x : Transition) (env : Env) (w : World) (p : Phase)
    → w.globals ≡ globals_of p
    → (q : Phase) × Step env p x q × ((transit x env w).1.globals ≡ globals_of q)
unfolding transit jni_on_load dll_main ◌>>=◌ ◌>>◌ pure
transit-Step (load jvm) env w p e =
    Loaded-Step p (initialize_jni-Loaded jvm env w) e (initialize_jni-version jvm env w)
transit-Step (unload jvm) env w p e = (stopped, unloads p jvm, jni_on_unload-unloaded jvm env w)
transit-Step (loader instance reason reserved) env w p e =
    (p, ignores p instance reason reserved, e)

transit_all-Steps :
    (xs : List Transition) (env : Env) (w : World) (p : Phase)
    → w.globals ≡ globals_of p
    → (q : Phase) × Steps env p xs q × ((transit_all xs env w).1.globals ≡ globals_of q)
unfolding transit_all ◌>>=◌ ◌>>◌ pure
transit_all-Steps [] env w p e = (p, done, e)
transit_all-Steps (x ∷ xs) env w p e =
    let (q, s, e') = transit-Step x env w p e in
    let (r, ss, e'') = transit_all-Steps xs env (transit x env w).1 q e' in (r, next s ss, e'')

-- From a phase that the static variables implement, any sequence of loads, unloads and calls of
-- Windows' loader takes them through steps of the abstract machine, to a phase that they implement:
-- a load ends in the running phase of its JVM, or changes nothing, which needs a private allocator or
-- Windows; an unload ends in the stopped phase; the loader changes nothing. And in every phase but a
-- running one, the search for a JNIEnv fails without any call.
pub transit_all-Implements :
    (xs : List Transition) (env : Env) (w : World) (p : Phase)
    → w.globals ≡ globals_of p
    → (q : Phase) × Steps env p xs q × Implements q (transit_all xs env w).1
transit_all-Implements xs env w p e =
    let (q, s, e') = transit_all-Steps xs env w p e in (q, s, globals-Implements q _ e')
