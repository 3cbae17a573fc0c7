-- ===== src/Init/Race.antt =====
-- The static variables of jni/src/init.c between threads: one that loads and unloads, and any number
-- that call get_jni_env, at any time, also before a load and after an unload; one access to a
-- variable at a time. The accesses of `volatile` flags and of the pointer are taken to happen in one
-- order that all threads see.
pub mod Alone
pub mod Invariant
use libdatachannel_java.Prelude.{ℕ, ◌≡◌, Bool, true, false, Option, none, some}
use libdatachannel_java.Native.Event.{Ref}
use libdatachannel_java.Native.World.{Globals, update}
use libdatachannel_java.Init.{is_loaded}

-- Where the loading thread stands in initialize_jni.
pub data Loader : Type 0 where
  tested : Ref → Loader  -- before initialize_jni_thread_tracking and `global_JVM = jvm`
  stored_jvm : Ref → Loader  -- before `jvm_unloading = 0`
  cleared_unloading : Ref → Loader  -- before rtcInitLogger
  started : Ref → Loader  -- before `jvm_loaded = 1`

-- Where it stands in JNI_OnUnload.
pub data Unloader : Type 0 where
  unloading : Unloader  -- before rtcCleanup
  cleaned : Unloader  -- before `global_JVM = NULL`
  cleared_jvm : Unloader  -- before `jvm_loaded = 0`

pub data Owner : Type 0 where
  outside : Owner
  loading : Loader → Owner
  leaving : Unloader → Owner

-- Where a thread stands in get_jni_env.
pub data Caller : Type 0 where
  idle : Caller
  has_jvm : Caller  -- `global_JVM == NULL` was false
  admitted : Caller  -- `jvm_unloading` was 0
  using : Option Ref → Caller  -- in get_jni_env_from_jvm, with this argument

pub data Load (g : Globals) : Owner → Globals → Owner → Type 0 where
  begin : (jvm : Ref) → is_loaded jvm g ≡ false → Load g outside g (loading (tested jvm))
  no_tracking : (jvm : Ref) → Load g (loading (tested jvm)) g outside
  store_jvm :
      (jvm : Ref)
      → Load g
          (loading (tested jvm))
          (record g { global_jvm = some jvm })
          (loading (stored_jvm jvm))
  clear_unloading :
      (jvm : Ref)
      → Load g
          (loading (stored_jvm jvm))
          (record g { jvm_unloading = false })
          (loading (cleared_unloading jvm))
  start_rtc : (jvm : Ref) → Load g (loading (cleared_unloading jvm)) g (loading (started jvm))
  set_loaded : (jvm : Ref) → Load g (loading (started jvm)) (record g { jvm_loaded = true }) outside

-- rtcCleanup returns at a moment at which no thread is in get_jni_env. Threads may still enter it
-- after that.
pub data Unload (g : Globals) (callers : ℕ → Caller) : Owner → Globals → Owner → Type 0 where
  set_unloading : Unload g callers outside (record g { jvm_unloading = true }) (leaving unloading)
  cleanup : ((i : ℕ) → callers i ≡ idle) → Unload g callers (leaving unloading) g (leaving cleaned)
  clear_jvm :
      Unload g callers (leaving cleaned) (record g { global_jvm = none }) (leaving cleared_jvm)
  clear_loaded : Unload g callers (leaving cleared_jvm) (record g { jvm_loaded = false }) outside

pub data Call (g : Globals) : Caller → Caller → Type 0 where
  no_jvm : g.global_jvm ≡ none → Call g idle idle
  some_jvm : (jvm : Ref) → g.global_jvm ≡ some jvm → Call g idle has_jvm
  refused : g.jvm_unloading ≡ true → Call g has_jvm idle
  passed : g.jvm_unloading ≡ false → Call g has_jvm admitted
  pass_jvm : Call g admitted (using g.global_jvm)
  return : (jvm : Option Ref) → Call g (using jvm) idle

pub record System : Type 0 where
  pub globals : Globals
  pub owner : Owner
  pub callers : ℕ → Caller

pub data Step (s : System) : System → Type 0 where
  load :
      {globals : Globals} {owner : Owner}
      → Load s.globals s.owner globals owner
      → Step s (record { globals = globals; owner = owner; callers = s.callers })
  unload :
      {globals : Globals} {owner : Owner}
      → Unload s.globals s.callers s.owner globals owner
      → Step s (record { globals = globals; owner = owner; callers = s.callers })
  call :
      (i : ℕ) {c : Caller}
      → Call s.globals (s.callers i) c
      → Step s (record s { callers = update s.callers i c })

-- Before the first load.
abbrev pub beginning : System
beginning = record {
  globals = record { global_jvm = none; jvm_unloading = false; jvm_loaded = false };
  owner = outside;
  callers = λ i. idle;
}

pub data Reachable : System → Type 0 where
  begun : Reachable beginning
  step : {s t : System} → Reachable s → Step s t → Reachable t
