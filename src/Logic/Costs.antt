-- ===== src/Logic/Costs.antt =====
-- `Costs f k env m`: on the machine `env`, the calls that `m` makes weigh at most `k`, from any state.
pub mod Raises
pub mod Calls
use libdatachannel_java.Prelude.{ℕ, ◌+◌, ◌≤◌, Bool, true, false, Option, none, some, [], ◌∷◌, arith}
use libdatachannel_java.Native.Event.{Event, Trace}
use libdatachannel_java.Native.World.{
  World, Env, M, pure, ◌>>=◌, ◌>>◌, when◌then◌else◌, emit, ask, read, look,
}

abbrev pub cost : (Event → ℕ) → Trace → ℕ
cost f [] = 0
cost f (e ∷ t) = f e + cost f t

pub record Costs {A : Type 0} (f : Event → ℕ) (k : ℕ) (env : Env) (m : M A) : Type 0 where
  pub within : (w : World) → cost f (m env w).1.trace ≤ k + cost f w.trace

add_within : (j k l a b c : ℕ) → j + k ≤ l → b ≤ j + a → c ≤ k + b → c ≤ l + a
add_within j k l a b c h x y = omega arith

module _ {f : Event → ℕ} {env : Env} where
  pub Costs-pure : {A : Type 0} {k : ℕ} (a : A) → Costs f k env (pure a)
  unfolding pure
  Costs-pure a = record { within = λ w. omega arith }

  pub Costs-read : {A : Type 0} {k : ℕ} (g : Env → A) → Costs f k env (read g)
  unfolding read
  Costs-read g = record { within = λ w. omega arith }

  pub Costs-look : {A : Type 0} {k : ℕ} (g : Env → Trace → A) → Costs f k env (look g)
  unfolding look
  Costs-look g = record { within = λ w. omega arith }

  pub Costs-emit : {k : ℕ} (e : Event) → f e ≤ k → Costs f k env (emit e)
  unfolding emit
  Costs-emit e h = record { within = λ w. omega arith }

  pub Costs-ask :
      {A : Type 0} {k : ℕ} (g : Env → Trace → A) (e : A → Event)
      → ((a : A) → f (e a) ≤ k)
      → Costs f k env (ask g e)
  unfolding ask
  Costs-ask g e h = record { within = λ w. let l = h (g env w.trace) in omega arith }

  -- One after the other.
  pub Costs->>= :
      {A B : Type 0} (j k : ℕ) {l : ℕ} {m : M A} {n : A → M B}
      → j + k ≤ l
      → Costs f j env m
      → ((a : A) → Costs f k env (n a))
      → Costs f l env (m >>= n)
  unfolding ◌>>=◌
  Costs->>= j k {l} {m} {n} h c d = record {
    within = λ w.
        add_within j k l (cost f w.trace) (cost f (m env w).1.trace)
          (cost f (n (m env w).0 env (m env w).1).1.trace) h (c.within w) ((d _).within _);
  }

  pub Costs->> :
      {A B : Type 0} (j k : ℕ) {l : ℕ} {m : M A} {n : M B}
      → j + k ≤ l
      → Costs f j env m
      → Costs f k env n
      → Costs f l env (m >> n)
  unfolding ◌>>◌
  Costs->> j k h c d = Costs->>= j k h c (λ _. d)

  -- The first part is free.
  pub Costs-free->>= :
      {A B : Type 0} {k : ℕ} {m : M A} {n : A → M B}
      → Costs f 0 env m
      → ((a : A) → Costs f k env (n a))
      → Costs f k env (m >>= n)
  Costs-free->>= {k = k} c d = Costs->>= 0 k (omega arith) c d

  pub Costs-free->> :
      {A B : Type 0} {k : ℕ} {m : M A} {n : M B}
      → Costs f 0 env m
      → Costs f k env n
      → Costs f k env (m >> n)
  unfolding ◌>>◌
  Costs-free->> c d = Costs-free->>= c (λ _. d)

  -- The second part is free.
  pub Costs->>=-free :
      {A B : Type 0} {k : ℕ} {m : M A} {n : A → M B}
      → Costs f k env m
      → ((a : A) → Costs f 0 env (n a))
      → Costs f k env (m >>= n)
  Costs->>=-free {k = k} c d = Costs->>= k 0 (omega arith) c d

  pub Costs->>-free :
      {A B : Type 0} {k : ℕ} {m : M A} {n : M B}
      → Costs f k env m
      → Costs f 0 env n
      → Costs f k env (m >> n)
  unfolding ◌>>◌
  Costs->>-free c d = Costs->>=-free c (λ _. d)

  pub Costs-when :
      {A : Type 0} {k : ℕ} (b : Bool) {m n : M A}
      → Costs f k env m
      → Costs f k env n
      → Costs f k env (when b then m else n)
  unfolding when◌then◌else◌
  Costs-when true c d = c
  Costs-when false c d = d

  pub Costs-more : {A : Type 0} {k : ℕ} {m : M A} → Costs f 0 env m → Costs f k env m
  Costs-more c = record { within = λ w. let l = c.within w in omega arith }
