-- ===== src/Native/World.antt =====
-- The state that the native code keeps, the machine that answers its calls, and programs over both.
use libdatachannel_java.Prelude.{
  ℕ, ◌≡◌, refl, Bool, true, false, Option, List, ◌∷◌, String, ◌==◌, if◌then◌else◌,
}
use libdatachannel_java.Prelude.Int.{ℤ}
use libdatachannel_java.Native.Event.{
  MiCall, Format, Ptr, Ref, RtcField, RtcCall, RtcReliability, Event, Trace,
}

-- jni/src/callback.h
pub record JvmCallback : Type 0 where
  pub vm : Option Ref
  pub instance_ref : Option Ref

-- jni/src/thread_attachment.cpp: the structure that a thread keeps on Windows; elsewhere it has no
-- owner.
pub record ThreadAttachment : Type 0 where
  pub vm : Option Ref
  pub owner : ℕ

-- The static variables of jni/src/init.c. `volatile jint` flags are 0 or 1.
pub record Globals : Type 0 where
  pub global_jvm : Option Ref
  pub jvm_unloading : Bool
  pub jvm_loaded : Bool

-- `trace` holds the calls made so far, the newest first. `callbacks` and `attachments` are the
-- memory behind the pointers to such structures. `attachment` is the thread-local variable of the
-- running thread, `attachment_key` is the static key of the Windows build.
pub record World : Type 0 where
  pub globals : Globals
  pub callbacks : Ptr → JvmCallback
  pub attachments : Ptr → ThreadAttachment
  pub attachment : ThreadAttachment
  pub attachment_key : Option ℕ
  pub trace : Trace

-- How the build and the code outside src answer. An answer may depend on every earlier call.
pub record Env : Type 0 where
  -- the build
  pub sizeof_pointer : ℕ
  pub sizeof_jvm_callback : ℕ
  pub sizeof_thread_attachment : ℕ
  pub is_windows : Bool
  pub is_ios : Bool
  pub private_allocator : Bool
  -- what a field holds to which the integer is assigned: the conversion to its type in rtc.h
  pub to_field : RtcField → ℤ → ℤ
  -- libc
  pub malloc : Trace → ℕ → Option Ptr
  pub errno : Trace → ℤ
  pub vsnprintf_l : Trace → Option Ptr → ℕ → Format → ℤ
  pub snprintf : Trace → Ptr → ℕ → String → List ℕ → ℤ
  -- where a string literal and a local array stand
  pub literal : String → Ptr
  pub local_array : Trace → Ptr
  -- mimalloc
  pub mi : Trace → MiCall → Option Ptr
  pub mi_posix_memalign : Trace → (alignment size : ℕ) → ℤ × Option Ptr
  pub mi_version : Trace → ℕ
  -- JNIEnv
  pub get_array_length : Trace → Ref → ℤ
  pub get_object_array_element : Trace → Ref → ℕ → Option Ref
  pub get_string_utf_chars : Trace → Ref → Option Ptr
  pub get_java_vm : Trace → ℤ
  pub java_vm : Trace → Option Ref
  pub new_global_ref : Trace → Option Ref → Option Ref
  pub new_string_utf : Trace → Ptr → Option Ref
  pub new_direct_byte_buffer : Trace → Ptr → ℤ → Option Ref
  pub get_direct_buffer_address : Trace → Ref → Option Ptr
  pub get_direct_buffer_capacity : Trace → Ref → ℤ
  pub find_class : Trace → String → Option Ref
  -- JavaVM; `current_env` is what the call stores in `*env`
  pub vm_get_env : Trace → Ref → ℤ
  pub vm_attach : Trace → Ref → ℤ
  pub current_env : Trace → Option Ref
  -- the generated wrappers
  pub java_allocate : Trace → ℤ → Option Ref
  pub parse_candidate_pair : Trace → Ptr → Ptr → Option Ref
  pub create_reliability : Trace → RtcReliability → Option Ref
  -- rtc; the last three are what its out parameters hold after the call, written by it or not
  pub rtc : Trace → RtcCall → ℤ
  pub get_user_pointer : Trace → ℤ → Option Ptr
  pub received_size : Trace → ℤ → ℤ
  pub track_direction : Trace → ℤ → ℤ
  pub channel_reliability : Trace → ℤ → RtcReliability
  -- OpenSSL: whether the hooks are the private ones, and the answer to setting them
  pub crypto_hooks_private : Trace → Bool
  pub crypto_set_mem_functions : Trace → ℤ
  -- Windows
  pub fls_alloc : Trace → Option ℕ
  pub fls_get_value : Trace → ℕ → Option Ptr
  pub fls_set_value : Trace → ℕ → Option Ptr → Bool
  pub get_current_thread_id : Trace → ℕ

abbrev pub M : Type 0 → Type 0
M A = Env → World → A × World

unfoldable pub pure : {A : Type 0} → A → M A
pure a env w = (a, w)

infixl 5 ◌>>=◌ ◌>>◌
unfoldable pub ◌>>=◌ : {A B : Type 0} → M A → (A → M B) → M B
◌>>=◌ m f env w = let (a, w') = m env w in f a env w'

unfoldable pub ◌>>◌ : {A B : Type 0} → M A → M B → M B
unfolding ◌>>=◌
m >> k = m >>= λ _. k

-- `if (b) m; else k;`, and an early return.
infix 1 when◌then◌else◌
unfoldable pub when◌then◌else◌ : {A : Type 0} → Bool → M A → M A → M A
when true then m else k = m
when false then m else k = k

-- What holds on both branches.
pub when-run {ℓ} :
    {A : Type 0} (P : A × World → Type ℓ) (b : Bool) (m k : M A) (env : Env) (w : World)
    → (b ≡ true → P (m env w))
    → (b ≡ false → P (k env w))
    → P ((when b then m else k) env w)
unfolding when◌then◌else◌
when-run P true m k env w h l = h refl
when-run P false m k env w h l = l refl

pub when-false : {A : Type 0} {b : Bool} (m k : M A) → b ≡ false → (when b then m else k) ≡ k
unfolding when◌then◌else◌
when-false m k e = rw e

-- The build flags and the sizes that the compiler knows.
unfoldable pub read : {A : Type 0} → (Env → A) → M A
read f env w = (f env, w)

-- A call without an answer.
unfoldable pub emit : Event → M (Unit {0})
emit e env w = (tt, record w { trace = e ∷ w.trace })

-- A call with an answer.
unfoldable pub ask : {A : Type 0} → (Env → Trace → A) → (A → Event) → M A
ask answer e env w = let a = answer env w.trace in (a, record w { trace = e a ∷ w.trace })

-- What the machine has written to memory by now.
unfoldable pub look : {A : Type 0} → (Env → Trace → A) → M A
look answer env w = (answer env w.trace, w)

unfoldable pub get_globals : M Globals
get_globals env w = (w.globals, w)

unfoldable pub set_globals : Globals → M (Unit {0})
set_globals g env w = (tt, record w { globals = g })

abbrev pub update {ℓ} : {A : Type ℓ} → (Ptr → A) → Ptr → A → Ptr → A
update f p a q = if p == q then a else f q
