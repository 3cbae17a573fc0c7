-- ===== src/Logic/Moves.antt =====
-- `Moves P m Q`: run where it holds `P` besides whatever else is held, `m` makes only allowed calls
-- and holds `Q` of its result in the end, besides the same rest. `P = []` and `Q = []` say that it
-- gives back all it obtains, on every path and whatever the machine answers.
use libdatachannel_java.Prelude.{
  Bool, true, false, ℕ, ◌+◌, ◌≤◌, ◌≡◌, refl, Option, none, some, List, [], ◌∷◌, arith,
}
use libdatachannel_java.Native.Event.{Event, Trace}
use libdatachannel_java.Native.World.{when◌then◌else◌, World, Env, M, pure, ◌>>=◌, ◌>>◌, emit, ask}
use libdatachannel_java.Logic.Ledger.{Resource, one, count, gain, loss, held, Allowed, Safe}

pub record Owns (P : List Resource) (rest : Resource → ℕ) (t : Trace) : Type 0 where
  pub safe : Safe t
  pub exact : (r : Resource) → held t r ≡ count P r + rest r

pub record Moves {A : Type 0} (P : List Resource) (m : M A) (Q : A → List Resource) : Type 0 where
  pub run :
      (env : Env) (w : World) (rest : Resource → ℕ)
      → Owns P rest w.trace
      → Owns (Q (m env w).0) rest (m env w).1.trace

module _ {A : Type 0} {P : List Resource} where
  pub Moves-pure : (a : A) {Q : A → List Resource} → P ≡ Q a → Moves P (pure a) Q
  unfolding pure
  Moves-pure a e = record { run = λ env w rest o. rw (← e) o }

  pub Moves->>= :
      {B : Type 0} {m : M A} {f : A → M B} {Q : A → List Resource} {R : B → List Resource}
      → Moves P m Q
      → ((a : A) → Moves (Q a) (f a) R)
      → Moves P (m >>= f) R
  unfolding ◌>>=◌
  Moves->>= {m} first next = record {
    run = λ env w rest o. (next _).run env (m env w).1 rest (first.run env w rest o);
  }

  pub Moves->> :
      {B : Type 0} {m : M A} {k : M B} {Q : List Resource} {R : B → List Resource}
      → Moves P m (λ _. Q)
      → Moves Q k R
      → Moves P (m >> k) R
  unfolding ◌>>◌
  Moves->> first next = Moves->>= first (λ _. next)

-- The rest of the ledger does not change, so what `P` lists is still held when `m` runs.
abbrev pub Holds : List Resource → Trace → Type 0
Holds P t = (r : Resource) → count P r ≤ held t r

abbrev pub got : (ℕ → Resource) → Option ℕ → List Resource → List Resource
got f none P = P
got f (some a) P = f a ∷ P

-- `x` is one of `P`, and `Q` is the others.
abbrev pub Splits : List Resource → Resource → List Resource → Type 0
Splits P x Q = (r : Resource) → count P r ≡ one x r + count Q r

pub Owns-∷ :
    {P : List Resource} (Q : List Resource) {rest : Resource → ℕ} {t : Trace} (e : Event)
    → Owns P rest t
    → Allowed t e
    → ((r : Resource) → count Q r + count (loss e) r ≡ count P r + count (gain e) r)
    → Owns Q rest (e ∷ t)
Owns-∷ Q e o a h = record { safe = (o.safe, a); exact = λ r. omega (arith, o.exact r, h r) }

pub Owns-Holds : {P : List Resource} {rest : Resource → ℕ} {t : Trace} → Owns P rest t → Holds P t
Owns-Holds o r = omega (arith, o.exact r)

module _ {P : List Resource} where
  pub Moves-emit :
      (e : Event) (Q : List Resource)
      → ((t : Trace) → Holds P t → Allowed t e)
      → ((r : Resource) → count Q r + count (loss e) r ≡ count P r + count (gain e) r)
      → Moves P (emit e) (λ _. Q)
  unfolding emit
  Moves-emit e Q allowed balance = record {
    run = λ env w rest o. Owns-∷ Q e o (allowed w.trace (Owns-Holds o)) balance;
  }

  pub Moves-ask :
      {A : Type 0} (answer : Env → Trace → A) (e : A → Event) (Q : A → List Resource)
      → ((a : A) (t : Trace) → Holds P t → Allowed t (e a))
      → ((a : A) (r : Resource)
          → count (Q a) r + count (loss (e a)) r ≡ count P r + count (gain (e a)) r)
      → Moves P (ask answer e) Q
  unfolding ask
  Moves-ask answer e Q allowed balance = record {
    run = λ env w rest o.
        Owns-∷ (Q (answer env w.trace)) (e (answer env w.trace)) o
          (allowed _ w.trace (Owns-Holds o)) (balance _);
  }

-- Only the counts matter.
pub Moves-pre :
    {A : Type 0} {P : List Resource} (P' : List Resource) {m : M A} {Q : A → List Resource}
    → ((r : Resource) → count P r ≡ count P' r)
    → Moves P' m Q
    → Moves P m Q
Moves-pre P' e h = record {
  run = λ env w rest o.
      h.run env w rest (record { safe = o.safe; exact = λ r. omega (arith, o.exact r, e r) });
}

pub Moves-skip :
    {P : List Resource} (Q : List Resource)
    → ((r : Resource) → count P r ≡ count Q r)
    → Moves P (pure tt) (λ _. Q)
Moves-skip Q e = Moves-pre Q e (Moves-pure tt refl)

-- What a program's result always satisfies.
pub record Yields {A : Type 0} (m : M A) (G : A → Type 0) : Type 0 where
  pub good : (env : Env) (w : World) → G (m env w).0

pub Moves->>=-Yields :
    {A B : Type 0} {P : List Resource} {m : M A} {f : A → M B} {G : A → Type 0}
    {Q : A → List Resource} {R : B → List Resource}
    → Moves P m Q
    → Yields m G
    → ((a : A) → G a → Moves (Q a) (f a) R)
    → Moves P (m >>= f) R
unfolding ◌>>=◌
Moves->>=-Yields {m} first y next = record {
  run = λ env w rest o. (next _ (y.good env w)).run env (m env w).1 rest (first.run env w rest o);
}

module _ {A : Type 0} {G : A → Type 0} where
  pub Yields-pure : (a : A) → G a → Yields (pure a) G
  unfolding pure
  Yields-pure a g = record { good = λ env w. g }

  pub Yields->>= :
      {B : Type 0} (m : M B) {f : B → M A} → ((b : B) → Yields (f b) G) → Yields (m >>= f) G
  unfolding ◌>>=◌
  Yields->>= m h = record { good = λ env w. (h _).good env _ }

  pub Yields->> : {B : Type 0} (m : M B) {k : M A} → Yields k G → Yields (m >> k) G
  unfolding ◌>>◌
  Yields->> m h = Yields->>= m (λ _. h)

  pub Yields-when :
      (b : Bool) {x y : M A}
      → (b ≡ true → Yields x G)
      → Yields y G
      → Yields (when b then x else y) G
  unfolding when◌then◌else◌
  Yields-when true h k = h refl
  Yields-when false h k = k

  -- With what the first part yields.
  pub Yields-from :
      {B : Type 0} {H : B → Type 0} {m : M B} {f : B → M A}
      → Yields m H
      → ((b : B) → H b → Yields (f b) G)
      → Yields (m >>= f) G
  unfolding ◌>>=◌
  Yields-from y h = record { good = λ env w. (h _ (y.good env w)).good env _ }

-- A program that needs nothing may start with anything held.
pub Safe-Owns : {t : Trace} → Safe t → Owns [] (held t) t
Safe-Owns s = record { safe = s; exact = λ r. omega arith }
