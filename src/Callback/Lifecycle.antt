-- ===== src/Callback/Lifecycle.antt =====
-- The life of a listener's structure: what allocate_callback makes, free_callback unmakes.
use libdatachannel_java.Prelude.{ℕ, ◌≡◌, refl, Option, none, some, List, ◌∷◌, arith}
use libdatachannel_java.Native.Event.{Ptr, Ref, Trace}
use libdatachannel_java.Native.World.{M, look, World, Env, pure, ◌>>=◌, ◌>>◌, read, ask, emit}
use libdatachannel_java.Util.{throw_native_exception}
use libdatachannel_java.Native.Event.{load}
use libdatachannel_java.Native.Calls.{free, throw, malloc, get_java_vm, new_global_ref}
use libdatachannel_java.Native.Memory.{store_callback, load_callback}
use libdatachannel_java.Logic.Ledger.{Resource, block, global_ref, one_self, Has}
use libdatachannel_java.Logic.Moves.{
  Owns, Owns-∷, Owns-Holds, Moves, Moves->>=, Moves->>, Holds, got,
}
use libdatachannel_java.Logic.Rules.{
  free-Moves, malloc-Moves, get_java_vm-Moves, store_callback-Moves, new_global_ref-Moves,
  delete_global_ref-Moves,
}
use libdatachannel_java.Util.Ownership.{fail-Moves, throw_native_exception-Moves}
use libdatachannel_java.Callback.{
  finish_callback, fill_callback, start_callback, allocate_callback, free_callback,
}

-- The structure at `cb` is held and carries the global reference `g`, which is held too.
pub record IsListener (P : List Resource) (rest : Resource → ℕ) (cb : Ptr) (g : Ref) (w : World)
    : Type 0 where
  pub carries : (w.callbacks cb).instance_ref ≡ some g
  pub owns : Owns (block cb ∷ global_ref g ∷ P) rest w.trace

-- What allocate_callback may return.
pub data Allocated (P : List Resource) (rest : Resource → ℕ) : Option Ptr × World → Type 0 where
  failed : {w : World} → Owns P rest w.trace → Allocated P rest (none, w)
  allocated :
      (cb : Ptr) (g : Ref) {w : World} → IsListener P rest cb g w → Allocated P rest (some cb, w)

block-Has : (cb : Ptr) (Q : List Resource) (t : Trace) → Holds (block cb ∷ Q) t → Has t (block cb)
block-Has cb Q t h = omega (arith, h (block cb), one_self (block cb))

-- What fill_callback does before it looks at the new reference.
prepare : Option Ref → Ptr → M (Option Ref)
prepare callback cb = do
  (_, vm) ← get_java_vm
  store_callback cb (λ c. record c { vm = vm })
  new_global_ref callback

module _ {P : List Resource} where
  abandon-Moves : (cb : Ptr) → Moves (block cb ∷ P) (finish_callback cb none) (λ _. P)
  unfolding finish_callback
  abandon-Moves cb =
      Moves->> (store_callback-Moves cb _ (block-Has cb P))
        (Moves->> (free-Moves cb P (λ r. refl)) (fail-Moves _ none refl))

  prepare-Moves :
      (callback : Option Ref) (cb : Ptr)
      → Moves (block cb ∷ P) (prepare callback cb) (λ o. got global_ref o (block cb ∷ P))
  unfolding prepare
  prepare-Moves callback cb =
      Moves->>= get_java_vm-Moves
        λ a. Moves->> (store_callback-Moves cb _ (block-Has cb P)) (new_global_ref-Moves callback)

module _ {P : List Resource} {rest : Resource → ℕ} (cb : Ptr) (env : Env) where
  finish-Allocated :
      (o : Option Ref) (w : World)
      → Owns (got global_ref o (block cb ∷ P)) rest w.trace
      → Allocated P rest (finish_callback cb o env w)
  unfolding finish_callback ◌>>=◌ ◌>>◌ store_callback pure free throw_native_exception look throw
      emit
  finish-Allocated (some g) w o = allocated cb g (record {
    carries = ground arith;
    owns = record {
      safe = (o.safe, omega (arith, o.exact (block cb), one_self (block cb)));
      exact = λ r. omega (arith, o.exact r);
    };
  })
  finish-Allocated none w o = failed ((abandon-Moves cb).run env w rest o)

  fill-Allocated :
      (callback : Option Ref) (w : World)
      → Owns (block cb ∷ P) rest w.trace
      → Allocated P rest (fill_callback callback cb env w)
  unfolding fill_callback prepare ◌>>=◌ ◌>>◌
  fill-Allocated callback w o =
      finish-Allocated _ (prepare callback cb env w).1
        ((prepare-Moves callback cb).run env w rest o)

module _ {P : List Resource} {rest : Resource → ℕ} (env : Env) (w : World) where
  start-Allocated :
      (callback : Option Ref) (p : Option Ptr) (w' : World)
      → Owns (got block p P) rest w'.trace
      → Allocated P rest (start_callback callback p env w')
  unfolding start_callback throw_native_exception ◌>>=◌ ◌>>◌ pure look throw emit
  start-Allocated callback none w' o =
      failed ((throw_native_exception-Moves {P = P} "failed to malloc for cb").run env w' rest o)
  start-Allocated callback (some cb) w' o = fill-Allocated cb env callback w' o

  -- Where `P` and the rest are held, allocate_callback makes only allowed calls, and either returns
  -- `NULL` and holds nothing new, or returns a structure that carries a global reference, and holds
  -- exactly these two besides. The memory is given back when the JVM makes no reference.
  pub allocate_callback-Allocated :
      (callback : Option Ref)
      → Owns P rest w.trace
      → Allocated P rest (allocate_callback callback env w)
  unfolding allocate_callback ◌>>=◌ read malloc ask
  allocate_callback-Allocated callback o =
      start-Allocated callback (env.malloc w.trace env.sizeof_jvm_callback)
        (malloc env.sizeof_jvm_callback env w).1
        ((malloc-Moves env.sizeof_jvm_callback).run env w rest o)

  -- Where the structure `cb` is held and carries the global reference `g`, held too, free_callback
  -- makes only allowed calls (it reads the structure before it frees it), and then exactly `P` and
  -- the rest are held.
  pub free_callback-Owns :
      (cb : Ptr) (g : Ref) → IsListener P rest cb g w → Owns P rest (free_callback cb env w).1.trace
  unfolding free_callback ◌>>=◌ ◌>>◌ load_callback
  free_callback-Owns cb g l = rw l.carries (
      (Moves->> {P = block cb ∷ global_ref g ∷ P}
          (delete_global_ref-Moves g (block cb ∷ P) (λ r. omega arith))
          (free-Moves cb P (λ r. refl))).run
        env (record w { trace = load cb ∷ w.trace }) rest
        (Owns-∷ (block cb ∷ global_ref g ∷ P) (load cb) l.owns
          (block-Has cb (global_ref g ∷ P) w.trace (Owns-Holds l.owns)) (λ r. refl)))
