-- ===== src/Util/Ownership.antt =====
-- The ledger of the helpers of jni/src/util.c.
use libdatachannel_java.Prelude.{[], none, some, String, List, ◌∷◌, ◌≡◌, refl, arith}
use libdatachannel_java.Prelude.Int.{ℤ}
use libdatachannel_java.Native.Event.{Ptr, StringGetter, Exception}
use libdatachannel_java.Native.World.{pure, ◌>>◌, World, Env}
use libdatachannel_java.Logic.Ledger.{Resource, block, local_ref, one_self, held, Safe}
use libdatachannel_java.Logic.Moves.{Owns, Safe-Owns, Moves, Moves-pure, Moves->>=, Moves->>, got}
use libdatachannel_java.Logic.Rules.{
  read-Moves, mi_version-Moves, snprintf-Moves, malloc-Moves, free-Moves, new_string_utf-Moves,
  new_string_of_block-Moves, throw-Moves, rtc-Moves, look-Moves, when-Moves, Splits-got,
}
use libdatachannel_java.Util.{
  new_literal, name_private_allocator, get_inner_allocator_native, throw_native_exception,
  throw_with, wrap_error, fill_and_convert, get_dynamic_string,
}

module _ {P : List Resource} where
  pub throw_native_exception-Moves : (msg : String) → Moves P (throw_native_exception msg) (λ _. P)
  unfolding throw_native_exception
  throw_native_exception-Moves msg = Moves->>= (look-Moves _) (λ e. throw-Moves _)

  throw_with-Moves : (e : Exception) → Moves P (throw_with e) (λ _. P)
  unfolding throw_with
  throw_with-Moves e = Moves->> (throw-Moves e) (Moves-pure _ refl)

  pub wrap_error-Moves : (msg : String) (n : ℤ) → Moves P (wrap_error msg n) (λ _. P)
  unfolding wrap_error
  wrap_error-Moves msg n = when-Moves _ (Moves-pure _ refl) (
      when-Moves _ (Moves-pure _ refl) (
        when-Moves _ (throw_with-Moves _) (
          when-Moves _ (throw_with-Moves _) (
            when-Moves _ (throw_with-Moves _)
              (when-Moves _ (throw_with-Moves _) (throw_with-Moves _))))))

  -- An exception and a `NULL` result.
  pub fail-Moves :
      {A : Type 0} (msg : String) (a : A) {Q : A → List Resource}
      → P ≡ Q a
      → Moves P (throw_native_exception msg >> pure a) Q
  fail-Moves msg a e = Moves->> (throw_native_exception-Moves msg) (Moves-pure a e)

module _ {P : List Resource} where
  fill_and_convert-Moves :
      (func : StringGetter) (handle size : ℤ) (m : Ptr)
      → Moves (block m ∷ P) (fill_and_convert func handle size m) (λ r. got local_ref r P)
  unfolding fill_and_convert
  fill_and_convert-Moves func handle size m =
      Moves->>= (rtc-Moves _ (λ t h. omega (arith, h (block m), one_self (block m)))) λ n.
        Moves->>= (wrap_error-Moves _ n) λ status.
          when-Moves _ (Moves->> (free-Moves m P (λ r. refl)) (Moves-pure none refl)) (
            Moves->>=
              (new_string_of_block-Moves m (λ t h. omega (arith, h (block m), one_self (block m))))
              λ r.
                Moves->>
                  (free-Moves m (got local_ref r P)
                    (Splits-got (block m ∷ P) P local_ref r _ (λ r. refl)))
                  (Moves-pure r refl))

  pub get_dynamic_string-Moves :
      (func : StringGetter) (handle : ℤ)
      → Moves P (get_dynamic_string func handle) (λ r. got local_ref r P)
  unfolding get_dynamic_string
  get_dynamic_string-Moves func handle = Moves->>= (rtc-Moves _ (λ t h. tt)) λ needed.
      Moves->>= (wrap_error-Moves "" needed) λ size. when-Moves _ (Moves-pure none refl) (
        when-Moves _ (fail-Moves _ none refl) (
          Moves->>= (malloc-Moves _) (elim [
            | none ↦ fail-Moves _ none refl
            | some m ↦ fill_and_convert-Moves func handle size m
          ])))

module _ {P : List Resource} where
  new_literal-Moves : (text : String) → Moves P (new_literal text) (λ r. got local_ref r P)
  unfolding new_literal
  new_literal-Moves text = Moves->>= (read-Moves _) λ p. new_string_utf-Moves p

  pub get_inner_allocator_native-Moves : Moves P get_inner_allocator_native (λ r. got local_ref r P)
  unfolding get_inner_allocator_native name_private_allocator
  get_inner_allocator_native-Moves = Moves->>= (read-Moves _) λ private.
      when-Moves _
        (Moves->>= mi_version-Moves λ version. Moves->>= (look-Moves _) λ name.
          Moves->>= (snprintf-Moves name _ _ _)
            λ written. when-Moves _ (new_literal-Moves _) (new_string_utf-Moves name))
        (new_literal-Moves _)

-- Where all calls made so far were allowed: GET_DYNAMIC_STRING makes only allowed calls, and in the
-- end holds the local reference of the string that it returns, if any, and nothing else besides what
-- was held before. In particular the buffer is held while rtc writes to it, and freed on every path.
pub get_dynamic_string-Owns :
    (func : StringGetter) (handle : ℤ) (env : Env) (w : World)
    → Safe w.trace
    → Owns
        (got local_ref (get_dynamic_string func handle env w).0 [])
        (held w.trace)
        (get_dynamic_string func handle env w).1.trace
get_dynamic_string-Owns func handle env w s =
    (get_dynamic_string-Moves func handle).run env w (held w.trace) (Safe-Owns s)
