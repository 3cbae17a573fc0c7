-- ===== src/Attachment/Fibers.antt =====
-- Fiber-local storage on Windows: the value that a thread has under a key, and what a thread leaves
-- there from its registration to its end.
use libdatachannel_java.Prelude.{
  ℕ, ◌+◌, ◌≤◌, ◌==◌, ◌≡◌, refl, ◌∙◌, Bool, true, false, Option, none, some, List, [], ◌∷◌, arith,
  if◌then◌else◌,
}
use libdatachannel_java.Prelude.Int.{pos}
use libdatachannel_java.Native.Event
use libdatachannel_java.Native.Event.{Ptr, Ref, Trace}
use libdatachannel_java.Native.World.{
  World, Env, M, pure, ◌>>=◌, ◌>>◌, when◌then◌else◌, when-run, read, emit, ask,
}
use libdatachannel_java.Native.Calls
use libdatachannel_java.Native.Memory.{load_attachment, store_attachment, get_attachment_key}
use libdatachannel_java.Logic.Ledger.{Resource, block, one_self, Has}
use libdatachannel_java.Logic.Moves.{Owns, Owns-∷, got}
use libdatachannel_java.Logic.Rules.{malloc-Moves}
use libdatachannel_java.Attachment.{
  keep_attachment, add_attachment, register_under, register_jni_thread, detach_thread,
}
use libdatachannel_java.Attachment.Threads.{attached}

-- What FlsSetValue last stored, unless the key was freed.
abbrev pub fls_value : Trace → ℕ → Option Ptr
fls_value [] key = none
fls_value (Event.fls_set_value k p true ∷ t) key = if k == key then p else fls_value t key
fls_value (Event.fls_free k ∷ t) key = if k == key then none else fls_value t key
fls_value (e ∷ t) key = fls_value t key

call_back : Option Ptr → M (Unit {0})
call_back none = pure tt
call_back (some p) = detach_thread p

-- When a thread ends, Windows passes the value to the callback of the key, unless it is NULL.
unfoldable pub end_thread : ℕ → M (Unit {0})
unfolding call_back
end_thread key env w = call_back (fls_value w.trace key) env w

-- What Windows and the JVM document, for one thread and one key: FlsGetValue answers with the value
-- stored last, GetCurrentThreadId always with the same number, and GetEnv with JNI_OK while the
-- thread is attached.
pub record IsThread (env : Env) (jvm : Ref) (key self : ℕ) : Type 0 where
  pub value : (t : Trace) → env.fls_get_value t key ≡ fls_value t key
  pub id : (t : Trace) → env.get_current_thread_id t ≡ self
  pub attached_env : (t : Trace) → 1 ≤ attached t → env.vm_get_env t jvm ≡ pos 0

eq_self : (n : ℕ) → (n == n) ≡ true
eq_self n = ground arith

fls_value_set :
    (key : ℕ) (p : Ptr) (b : Bool) (t : Trace)
    → b ≡ true
    → fls_value (Event.fls_set_value key (some p) b ∷ t) key ≡ some p
fls_value_set key p b t h = rw (h, eq_self key) refl

fls_value_unset :
    (key : ℕ) (p : Ptr) (b : Bool) (t : Trace)
    → b ≡ false
    → fls_value (Event.fls_set_value key (some p) b ∷ t) key ≡ fls_value t key
fls_value_unset key p b t h = rw h refl

attached_set :
    (key : ℕ) (p : Ptr) (b : Bool) (t : Trace)
    → attached (Event.fls_set_value key (some p) b ∷ t) ≡ attached t
attached_set key p b t = refl

Owns-Has :
    {p : Ptr} {P : List Resource} {rest : Resource → ℕ} {t : Trace}
    → Owns (block p ∷ P) rest t
    → Has t (block p)
Owns-Has {p} o = omega (arith, o.exact (block p), one_self (block p))

-- The outcomes of register_jni_thread for a thread without a value, `n` times attached: nothing
-- stored and nothing new held, or a held structure for this thread stored.
pub data Registered (jvm : Ref) (key self : ℕ) (rest : Resource → ℕ) (n : ℕ)
    : Bool × World → Type 0 where
  refused :
      {w : World}
      → attached w.trace ≡ n
      → fls_value w.trace key ≡ none
      → Owns [] rest w.trace
      → Registered jvm key self rest n (false, w)
  accepted :
      (p : Ptr) {w : World}
      → attached w.trace ≡ n
      → fls_value w.trace key ≡ some p
      → w.attachments p ≡ record { vm = some jvm; owner = self }
      → Owns (block p ∷ []) rest w.trace
      → Registered jvm key self rest n (true, w)

module _ (jvm : Ref) (key self : ℕ) (env : Env) (thread : IsThread env jvm key self)
    (rest : Resource → ℕ) (n : ℕ) where
  keep_attachment-Registered :
      (o : Option Ptr) (w : World)
      → attached w.trace ≡ n
      → fls_value w.trace key ≡ none
      → Owns (got block o []) rest w.trace
      → Registered jvm key self rest n (keep_attachment jvm key o env w)
  unfolding keep_attachment pure ◌>>=◌ ◌>>◌ ask emit Calls.get_current_thread_id Calls.fls_set_value
      Calls.free store_attachment
  keep_attachment-Registered none w a f o = refused a f o
  keep_attachment-Registered (some p) w a f o =
      let o1 =
        Owns-∷ (block p ∷ []) (Event.get_current_thread_id (env.get_current_thread_id w.trace)) o tt
          (λ r. refl) in
      let o2 = Owns-∷ (block p ∷ []) (Event.store p) o1 (Owns-Has o1) (λ r. refl) in
      let stored : Trace =
        Event.store p ∷ Event.get_current_thread_id (env.get_current_thread_id w.trace) ∷ w.trace in
      let set : Bool = env.fls_set_value stored key (some p) in
      let o3 = Owns-∷ (block p ∷ []) (Event.fls_set_value key (some p) set) o2 tt (λ r. refl) in
      when-run (Registered jvm key self rest n) set _ _ env _
        (λ h. accepted p a (fls_value_set key p _ _ h) (rw (eq_self p, thread.id w.trace) refl) o3)
        (λ h.
          refused a (fls_value_unset key p _ _ h ∙ f)
            (Owns-∷ [] (Event.free (some p)) o3 (Owns-Has o3) (λ r. omega arith)))

  add_attachment-Registered :
      (w : World)
      → attached w.trace ≡ n
      → fls_value w.trace key ≡ none
      → Owns [] rest w.trace
      → Registered jvm key self rest n (add_attachment jvm key env w)
  unfolding add_attachment ◌>>=◌ read ask Calls.malloc
  add_attachment-Registered w a f o =
      keep_attachment-Registered _ _ a f ((malloc-Moves _).run env w rest o)

  register_under-Registered :
      (k : Option ℕ) (w : World)
      → k ≡ some key
      → attached w.trace ≡ n
      → fls_value w.trace key ≡ none
      → Owns [] rest w.trace
      → Registered jvm key self rest n (register_under jvm k env w)
  unfolding register_under ◌>>=◌ ask Calls.fls_get_value
  register_under-Registered k w e a f o =
      rw (e, thread.value w.trace, f)
        (add_attachment-Registered _ a f
          (Owns-∷ [] (Event.fls_get_value key none) o tt (λ r. refl)))

  pub register_jni_thread-Registered :
      (w : World)
      → env.is_windows ≡ true
      → w.attachment_key ≡ some key
      → attached w.trace ≡ n
      → fls_value w.trace key ≡ none
      → Owns [] rest w.trace
      → Registered jvm key self rest n (register_jni_thread jvm env w)
  unfolding register_jni_thread ◌>>=◌ read get_attachment_key
  register_jni_thread-Registered w windows k a f o =
      when-run (Registered jvm key self rest n) env.is_windows _ _ env w
        (λ h. register_under-Registered w.attachment_key w k a f o) (λ h. absurd (cc (h, windows)))

-- The end of a thread whose value is such a structure, and of one without a value.
module _ (jvm : Ref) (key self : ℕ) (env : Env) (thread : IsThread env jvm key self)
    (rest : Resource → ℕ) (n : ℕ) where
  pub end_thread-none : (w : World) → fls_value w.trace key ≡ none → end_thread key env w ≡ (tt, w)
  unfolding end_thread call_back pure
  end_thread-none w f = rw f refl

  pub end_thread-some :
      (p : Ptr) (w : World)
      → attached w.trace ≡ n + 1
      → fls_value w.trace key ≡ some p
      → w.attachments p ≡ record { vm = some jvm; owner = self }
      → Owns (block p ∷ []) rest w.trace
      → (attached (end_thread key env w).1.trace ≡ n) × Owns [] rest (end_thread key env w).1.trace
  unfolding end_thread call_back detach_thread pure ◌>>=◌ ◌>>◌ ask emit Calls.get_current_thread_id
      Calls.vm_get_env Calls.vm_detach_current_thread Calls.free load_attachment when◌then◌else◌
  end_thread-some p w a f s o =
      let before : Trace = Event.get_current_thread_id self ∷ Event.load p ∷ w.trace in
      let o1 = Owns-∷ (block p ∷ []) (Event.load p) o (Owns-Has o) (λ r. refl) in
      let o2 = Owns-∷ (block p ∷ []) (Event.get_current_thread_id self) o1 tt (λ r. refl) in
      let o3 = Owns-∷ (block p ∷ []) (Event.vm_get_env jvm (pos 0)) o2 tt (λ r. refl) in
      let o4 = Owns-∷ (block p ∷ []) (Event.vm_detach_current_thread jvm) o3 tt (λ r. refl) in
      let o5 = Owns-∷ [] (Event.free (some p)) o4 (Owns-Has o4) (λ r. omega arith) in
      rw
        (
          f,
          s,
          thread.id (Event.load p ∷ w.trace),
          eq_self self,
          thread.attached_env before (omega (arith, a)),
        )
        (omega (arith, a), o5)
