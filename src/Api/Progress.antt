-- ===== src/Api/Progress.antt =====
-- What a load makes possible: a notification of rtc reaches the listener.
use libdatachannel_java.Prelude.{◌≡◌, ◌∙◌, ap, true, false, ◌||◌, Option, some, is_some, ◌∷◌, arith}
use libdatachannel_java.Native.Event.{Ptr, Ref, Upcall}
use libdatachannel_java.Native.World.{World, Env}
use libdatachannel_java.Logic.Keeps.{upcalls}
use libdatachannel_java.Init.{jni_on_load, get_jni_env, initialize_jni}
use libdatachannel_java.Init.Progress.{Admits, Found, get_jni_env_from_jvm-Found}
use libdatachannel_java.Init.Life.{loaded, Loaded-globals, initialize_jni-Loaded}
use libdatachannel_java.Init.Refinement.{
  Implements, globals-Implements, running, initialize_jni-version,
}
use libdatachannel_java.Api.{Notification, notify}
use libdatachannel_java.Api.Delivery.{
  Announces, Delivered, silent, delivered, entered, entered_same, notify-Delivered,
}

Delivered-once :
    {n : Notification} {cb : Ptr} {w : World} {o : Option Ref} {w' : World}
    → Delivered n cb w o w'
    → is_some o ≡ true
    → (u : Upcall) × Announces n u w'.trace
      × (upcalls w'.trace ≡ ((w.callbacks cb).instance_ref, u) ∷ upcalls w.trace)
Delivered-once (silent h) e = cc
Delivered-once (delivered u a h) e = (u, a, h)

-- Where the build has no private allocator and is not for Windows, and the JVM admits native
-- threads (GetEnv answers JNI_OK, or JNI_EDETACHED and then the attachment JNI_OK, and a JNIEnv is
-- stored): after JNI_OnLoad, from any state, every notification of rtc whose user pointer is a
-- structure makes exactly one call, of the method that it stands for, at the reference that the
-- structure carries.
pub notify-after_load :
    (jvm : Ref) (n : Notification) (cb : Ptr) (env : Env) (w : World)
    → env.private_allocator || env.is_windows ≡ false
    → Admits env jvm
    → (u : Upcall) × Announces n u (notify n (some cb) env (jni_on_load jvm env w).1).1.trace
      × (upcalls (notify n (some cb) env (jni_on_load jvm env w).1).1.trace
          ≡ (((jni_on_load jvm env w).1.callbacks cb).instance_ref, u)
            ∷ upcalls (jni_on_load jvm env w).1.trace)
unfolding jni_on_load Found
notify-after_load jvm n cb env w build admits =
    let l : World = (initialize_jni jvm env w).1 in
    let (same_globals, same_calls, same_callbacks) = entered_same n cb l in
    let e : l.globals ≡ loaded jvm =
      Loaded-globals (initialize_jni-Loaded jvm env w) (initialize_jni-version jvm env w build) in
    let i : Implements (running jvm) (entered n cb l) =
      globals-Implements (running jvm) (entered n cb l) (same_globals ∙ e) in
    let found : is_some (get_jni_env env (entered n cb l)).0 ≡ true =
      ap (λ (r : Option Ref × World). is_some r.0) (i.found env)
      ∙ get_jni_env_from_jvm-Found env jvm (ground arith) admits (entered n cb l) in
    let (u, a, h) = Delivered-once (notify-Delivered n cb env l) found in
    (u, a, h ∙ (λ k. ((same_callbacks k cb).instance_ref, u) ∷ same_calls k))
