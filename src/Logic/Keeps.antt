-- ===== src/Logic/Keeps.antt =====
-- `Keeps part m`: `m` leaves that part of the state as it was, whatever the machine answers.
use libdatachannel_java.Prelude.{◌≡◌, refl, ◌∙◌, Bool, true, false, Option, List, [], ◌∷◌}
use libdatachannel_java.Native.Event.{Ptr, Ref, Event, Trace, Upcall, upcall}
use libdatachannel_java.Native.World.{
  World, Env, Globals, JvmCallback, M, pure, ◌>>=◌, ◌>>◌, when◌then◌else◌, emit, ask, read, look,
}

pub record Keeps {S A : Type 0} (part : World → S) (m : M A) : Type 0 where
  pub kept : (env : Env) (w : World) → part (m env w).1 ≡ part w

module _ {S A : Type 0} {part : World → S} where
  pub Keeps-pure : (a : A) → Keeps part (pure a)
  unfolding pure
  Keeps-pure a = record { kept = λ env w. refl }

  pub Keeps->>= :
      {B : Type 0} {m : M A} {f : A → M B}
      → Keeps part m
      → ((a : A) → Keeps part (f a))
      → Keeps part (m >>= f)
  unfolding ◌>>=◌
  Keeps->>= k l = record { kept = λ env w. (l _).kept env _ ∙ k.kept env w }

  pub Keeps->> :
      {B : Type 0} {m : M A} {n : M B} → Keeps part m → Keeps part n → Keeps part (m >> n)
  unfolding ◌>>◌
  Keeps->> k l = Keeps->>= k (λ _. l)

  pub Keeps-when :
      (b : Bool) {m n : M A} → Keeps part m → Keeps part n → Keeps part (when b then m else n)
  unfolding when◌then◌else◌
  Keeps-when true k l = k
  Keeps-when false k l = l

  pub Keeps-read : (f : Env → A) → Keeps part (read f)
  unfolding read
  Keeps-read f = record { kept = λ env w. refl }

  pub Keeps-look : (f : Env → Trace → A) → Keeps part (look f)
  unfolding look
  Keeps-look f = record { kept = λ env w. refl }

-- The calls of a listener's methods, the newest first.
abbrev pub upcalls : Trace → List (Option Ref × Upcall)
upcalls [] = []
upcalls (upcall r u ∷ t) = (r, u) ∷ upcalls t
upcalls (e ∷ t) = upcalls t

-- What the search for a JNIEnv leaves alone.
pub record Observed : Type 0 where
  pub globals : Globals
  pub callbacks : Ptr → JvmCallback
  pub calls : List (Option Ref × Upcall)

abbrev pub observed : World → Observed
observed w = record { globals = w.globals; callbacks = w.callbacks; calls = upcalls w.trace }

abbrev pub Silent : Event → Type 0
Silent e = (t : Trace) → upcalls (e ∷ t) ≡ upcalls t

pub ask-Keeps :
    {A : Type 0} (f : Env → Trace → A) (e : A → Event)
    → ((a : A) → Silent (e a))
    → Keeps observed (ask f e)
unfolding ask
ask-Keeps f e h = record {
  kept = λ env w i. record {
    globals = w.globals;
    callbacks = w.callbacks;
    calls = h (f env w.trace) w.trace i;
  };
}

pub emit-Keeps : (e : Event) → Silent e → Keeps observed (emit e)
unfolding emit
emit-Keeps e h = record {
  kept = λ env w i. record { globals = w.globals; callbacks = w.callbacks; calls = h w.trace i };
}
