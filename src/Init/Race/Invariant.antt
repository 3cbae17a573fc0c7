-- ===== src/Init/Race/Invariant.antt =====
-- What every order of steps keeps.
use mathlib.Core.Bool.{false≢true}
use libdatachannel_java.Prelude.{
  ℕ, ◌≢◌, ◌≡◌, refl, sym, ap, subst, ◌∙◌, Bool, true, false, Option, none, some, is_some, ◌==◌,
  if◌then◌else◌, ◌⊎◌, inl, inr,
}
use libdatachannel_java.Native.Event.{Ref}
use libdatachannel_java.Native.World.{Globals, update}
use libdatachannel_java.Init.Race.{
  stored_jvm, unloading, cleaned, cleared_jvm, Owner, outside, loading, leaving, Caller, idle,
  has_jvm, admitted, using, Load, begin, no_tracking, store_jvm, clear_unloading, start_rtc,
  set_loaded, Unload, set_unloading, cleanup, clear_jvm, clear_loaded, Call, no_jvm, some_jvm,
  refused, passed, pass_jvm, return, System, Step, load, unload, call, Reachable, begun, step,
}

-- What a thread may rely on where it stands. Past its first test it knows of a JVM only if the flag
-- is still 0.
abbrev IsFine : Globals → Caller → Type 0
IsFine g idle = Unit {0}
IsFine g has_jvm = g.jvm_unloading ≡ false → is_some g.global_jvm ≡ true
IsFine g admitted = is_some g.global_jvm ≡ true
IsFine g (using jvm) = is_some jvm ≡ true

-- It has not passed the tests.
abbrev IsOut : Caller → Type 0
IsOut admitted = ⊥
IsOut (using jvm) = ⊥
IsOut c = Unit {0}

abbrev IsClosed : Globals → (ℕ → Caller) → Type 0
IsClosed g callers = (g.jvm_unloading ≡ true) × ((i : ℕ) → IsOut (callers i))

-- What holds where the loading thread stands: after rtcCleanup, nobody is past the tests.
abbrev IsQuiet : Globals → (ℕ → Caller) → Owner → Type 0
IsQuiet g callers (loading (stored_jvm jvm)) = is_some g.global_jvm ≡ true
IsQuiet g callers (leaving unloading) = g.jvm_unloading ≡ true
IsQuiet g callers (leaving cleaned) = IsClosed g callers
IsQuiet g callers (leaving cleared_jvm) = IsClosed g callers
IsQuiet g callers o = Unit {0}

pub record Inv (s : System) : Type 0 where
  pub fine : (i : ℕ) → IsFine s.globals (s.callers i)
  pub quiet : IsQuiet s.globals s.callers s.owner

IsFine-more :
    (g h : Globals) (c : Caller)
    → (h.jvm_unloading ≡ false → (is_some g.global_jvm ≡ true) ⊎ (g.jvm_unloading ≡ false))
    → (is_some g.global_jvm ≡ true → is_some h.global_jvm ≡ true)
    → IsFine g c
    → IsFine h c
IsFine-more g h idle a j f = tt
IsFine-more g h has_jvm a j f = λ e. elim (a e) [ inl s ↦ j s | inr u ↦ j (f u) ]
IsFine-more g h admitted a j f = j f
IsFine-more g h (using r) a j f = f

IsOut-idle : (c : Caller) → c ≡ idle → IsOut c
IsOut-idle c e = subst IsOut (sym e) tt

-- With the flag set and nobody past the tests, the JVM does not matter.
IsFine-closed : (g : Globals) (c : Caller) → g.jvm_unloading ≡ true → IsOut c → IsFine g c
IsFine-closed g idle u o = tt
IsFine-closed g has_jvm u o = λ e. absurd (false≢true (sym e ∙ u))
IsFine-closed g admitted u o = absurd o
IsFine-closed g (using jvm) u o = absurd o

Load-Inv :
    {g h : Globals} {o o' : Owner} (callers : ℕ → Caller)
    → Load g o h o'
    → Inv (record { globals = g; owner = o; callers = callers })
    → Inv (record { globals = h; owner = o'; callers = callers })
Load-Inv callers (begin jvm e) v = record { fine = v.fine; quiet = tt }
Load-Inv callers (no_tracking jvm) v = record { fine = v.fine; quiet = tt }
Load-Inv {g} callers (store_jvm jvm) v = record {
  fine = λ i.
      IsFine-more g (record g { global_jvm = some jvm }) (callers i) (λ e. inr e) (λ j. refl)
        (v.fine i);
  quiet = refl;
}
Load-Inv {g} callers (clear_unloading jvm) v = record {
  fine = λ i.
      IsFine-more g (record g { jvm_unloading = false }) (callers i) (λ e. inl v.quiet) (λ j. j)
        (v.fine i);
  quiet = tt;
}
Load-Inv callers (start_rtc jvm) v = record { fine = v.fine; quiet = tt }
Load-Inv {g} callers (set_loaded jvm) v = record {
  fine = λ i.
      IsFine-more g (record g { jvm_loaded = true }) (callers i) (λ e. inr e) (λ j. j) (v.fine i);
  quiet = tt;
}

Unload-Inv :
    {g h : Globals} {o o' : Owner} (callers : ℕ → Caller)
    → Unload g callers o h o'
    → Inv (record { globals = g; owner = o; callers = callers })
    → Inv (record { globals = h; owner = o'; callers = callers })
Unload-Inv {g} callers set_unloading v = record {
  fine = λ i.
      IsFine-more g (record g { jvm_unloading = true }) (callers i)
        (λ e. absurd (false≢true (sym e))) (λ j. j) (v.fine i);
  quiet = refl;
}
Unload-Inv callers (cleanup all) v = record {
  fine = v.fine;
  quiet = (v.quiet, λ i. IsOut-idle (callers i) (all i));
}
Unload-Inv {g} callers clear_jvm v = record {
  fine = λ i. IsFine-closed (record g { global_jvm = none }) (callers i) v.quiet.0 (v.quiet.1 i);
  quiet = v.quiet;
}
Unload-Inv {g} callers clear_loaded v = record {
  fine = λ i.
      IsFine-more g (record g { jvm_loaded = false }) (callers i) (λ e. inr e) (λ j. j) (v.fine i);
  quiet = tt;
}

Call-IsFine : {g : Globals} {c c' : Caller} → Call g c c' → IsFine g c → IsFine g c'
Call-IsFine (no_jvm e) f = tt
Call-IsFine (some_jvm jvm e) f = λ _. ap is_some e
Call-IsFine (refused e) f = tt
Call-IsFine (passed e) f = f e
Call-IsFine pass_jvm f = f
Call-IsFine (return jvm) f = tt

Call-IsOut :
    {g : Globals} {c c' : Caller} → Call g c c' → g.jvm_unloading ≡ true → IsOut c → IsOut c'
Call-IsOut (no_jvm e) u o = tt
Call-IsOut (some_jvm jvm e) u o = tt
Call-IsOut (refused e) u o = tt
Call-IsOut (passed e) u o = false≢true (sym e ∙ u)
Call-IsOut pass_jvm u o = o
Call-IsOut (return jvm) u o = tt

either : {A : Type 0} (P : A → Type 0) (b : Bool) {x y : A} → P x → P y → P (if b then x else y)
either P true p q = p
either P false p q = q

Call-IsQuiet :
    {g : Globals} (o : Owner) (callers : ℕ → Caller) (i : ℕ) {c : Caller}
    → Call g (callers i) c
    → IsQuiet g callers o
    → IsQuiet g (update callers i c) o
Call-IsQuiet outside callers i s q = tt
Call-IsQuiet (loading (stored_jvm jvm)) callers i s q = q
Call-IsQuiet (loading l) callers i s q = tt
Call-IsQuiet (leaving unloading) callers i s q = q
Call-IsQuiet (leaving cleaned) callers i s q =
    (q.0, λ j. either IsOut (i == j) (Call-IsOut s q.0 (q.1 i)) (q.1 j))
Call-IsQuiet (leaving cleared_jvm) callers i s q =
    (q.0, λ j. either IsOut (i == j) (Call-IsOut s q.0 (q.1 i)) (q.1 j))

Step-Inv : {s t : System} → Step s t → Inv s → Inv t
Step-Inv {s} (load l) v = Load-Inv s.callers l v
Step-Inv {s} (unload u) v = Unload-Inv s.callers u v
Step-Inv {s} (call i c) v = record {
  fine = λ j. either (IsFine s.globals) (i == j) (Call-IsFine c (v.fine i)) (v.fine j);
  quiet = Call-IsQuiet s.owner s.callers i c v.quiet;
}

Reachable-Inv : {s : System} → Reachable s → Inv s
Reachable-Inv begun = record { fine = λ i. tt; quiet = tt }
Reachable-Inv (step r st) = Step-Inv st (Reachable-Inv r)

-- In every order of the steps of one thread that loads and unloads the library and any number of
-- threads that call get_jni_env whenever they like, where rtcCleanup returns at a moment at which no
-- thread is in get_jni_env: a thread that has come to get_jni_env_from_jvm passes it a JVM that is
-- not NULL, and JNI_OnUnload is not between its rtcCleanup and its end.
pub get_jni_env-jvm :
    {s : System}
    → Reachable s
    → (i : ℕ) (jvm : Option Ref) → s.callers i ≡ using jvm
    → (is_some jvm ≡ true) × (s.owner ≢ leaving cleaned) × (s.owner ≢ leaving cleared_jvm)
get_jni_env-jvm {s} r i jvm e =
    let v = Reachable-Inv r in
    (
      subst (IsFine s.globals) e (v.fine i),
      λ o. subst IsOut e ((subst (IsQuiet s.globals s.callers) o v.quiet).1 i),
      λ o. subst IsOut e ((subst (IsQuiet s.globals s.callers) o v.quiet).1 i),
    )
