-- ===== src/Logic/Costs/Calls.antt =====
-- How many calls a program makes to the outside. `Pays φ k env m`: from any state, the calls that `m`
-- makes and what its result is still worth, by `φ`, are at most `k`.
use libdatachannel_java.Prelude.{ℕ, ◌+◌, ◌≤◌, String, Bool, true, false, length, arith}
use libdatachannel_java.Native.Event.{Event, Trace}
use libdatachannel_java.Native.World.{
  World, Env, M, pure, ◌>>=◌, ◌>>◌, when◌then◌else◌, emit, ask, read, look,
}
use libdatachannel_java.Native.Calls
use libdatachannel_java.Util.{throw_native_exception}

pub record Pays {A : Type 0} (φ : A → ℕ) (k : ℕ) (env : Env) (m : M A) : Type 0 where
  pub pays : (w : World) → length (m env w).1.trace + φ (m env w).0 ≤ k + length w.trace

-- A result that is worth nothing.
abbrev pub Makes : {A : Type 0} → ℕ → Env → M A → Type 0
Makes k env m = Pays (λ _. 0) k env m

add_pays : (j k l a b c x y : ℕ) → j + k ≤ l → b + x ≤ j + a → c + y ≤ x + k + b → c + y ≤ l + a
add_pays j k l a b c x y h p q = omega arith

module _ {env : Env} where
  pub Pays-pure : {A : Type 0} {φ : A → ℕ} {k : ℕ} (a : A) → φ a ≤ k → Pays φ k env (pure a)
  unfolding pure
  Pays-pure a h = record { pays = λ w. omega arith }

  pub Pays-emit : {k : ℕ} (e : Event) → 1 ≤ k → Makes k env (emit e)
  unfolding emit
  Pays-emit e h = record { pays = λ w. omega arith }

  pub Pays-ask :
      {A : Type 0} {φ : A → ℕ} {k : ℕ} (g : Env → Trace → A) (e : A → Event)
      → ((t : Trace) → 1 + φ (g env t) ≤ k)
      → Pays φ k env (ask g e)
  unfolding ask
  Pays-ask g e h = record { pays = λ w. let l = h w.trace in omega arith }

  pub Pays-look : {A : Type 0} {k : ℕ} (g : Env → Trace → A) → Makes k env (look g)
  unfolding look
  Pays-look g = record { pays = λ w. omega arith }

  pub Pays-read : {A : Type 0} {k : ℕ} (g : Env → A) → Makes k env (read g)
  unfolding read
  Pays-read g = record { pays = λ w. omega arith }

  -- The second part may spend what the first one's result is worth.
  pub Pays->>= :
      {A B : Type 0} {φ : A → ℕ} {ψ : B → ℕ} (j k : ℕ) {l : ℕ} {m : M A} {n : A → M B}
      → j + k ≤ l
      → Pays φ j env m
      → ((a : A) → Pays ψ (φ a + k) env (n a))
      → Pays ψ l env (m >>= n)
  unfolding ◌>>=◌
  Pays->>= {φ = φ} {ψ = ψ} j k {l} {m} {n} h c d = record {
    pays = λ w.
        add_pays j k l (length w.trace) (length (m env w).1.trace)
          (length (n (m env w).0 env (m env w).1).1.trace) (φ (m env w).0)
          (ψ (n (m env w).0 env (m env w).1).0) h (c.pays w) ((d _).pays _);
  }

  pub Pays-more :
      {A : Type 0} {φ : A → ℕ} {j k : ℕ} {m : M A} → j ≤ k → Pays φ j env m → Pays φ k env m
  Pays-more h c = record { pays = λ w. let l = c.pays w in omega arith }

  pub Pays->> :
      {A B : Type 0} {ψ : B → ℕ} (j k : ℕ) {l : ℕ} {m : M A} {n : M B}
      → j + k ≤ l
      → Makes j env m
      → Pays ψ k env n
      → Pays ψ l env (m >> n)
  unfolding ◌>>◌
  Pays->> {ψ = ψ} j k h c d = Pays->>= j k h c (λ _. Pays-more (omega arith) d)

  pub Pays-when :
      {A : Type 0} {φ : A → ℕ} {k : ℕ} (b : Bool) {m n : M A}
      → Pays φ k env m
      → Pays φ k env n
      → Pays φ k env (when b then m else n)
  unfolding when◌then◌else◌
  Pays-when true c d = c
  Pays-when false c d = d

  -- One exception, after which nothing is worth anything.
  pub fail-Pays :
      {A : Type 0} {φ : A → ℕ} {k : ℕ} (msg : String) (a : A)
      → 1 + φ a ≤ k
      → Pays φ k env (throw_native_exception msg >> pure a)
  unfolding throw_native_exception ◌>>◌ ◌>>=◌ look pure emit Calls.throw
  fail-Pays msg a h = record { pays = λ w. omega arith }
