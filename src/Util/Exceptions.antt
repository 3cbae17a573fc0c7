-- ===== src/Util/Exceptions.antt =====
-- How many exceptions the helpers of jni/src/util.c throw.
use libdatachannel_java.Prelude.{◌+◌, ◌≤◌, String, Option, arith}
use libdatachannel_java.Prelude.Int.{ℤ}
use libdatachannel_java.Native.Event.{Ref, Trace, Exception, StringGetter}
use libdatachannel_java.Native.World.{World, Env, pure, ◌>>◌}
use libdatachannel_java.Logic.Costs.{
  cost, Costs-pure, Costs-read, Costs-look, Costs-when, Costs-free->>=, Costs->>-free,
}
use libdatachannel_java.Logic.Costs.Raises.{
  raises, Raises, throw-Raises, new_string_utf-Raises, mi_version-Raises, snprintf-Raises,
}
use libdatachannel_java.Util.{
  new_literal, name_private_allocator, get_inner_allocator_native, throw_native_exception,
  throw_with, wrap_error, get_dynamic_string,
}
use libdatachannel_java.Util.Fetch.{
  Fetched, fetched, unmeasured, without_size, without_memory, unfilled, get_dynamic_string-Fetched,
}

module _ {env : Env} where
  pub throw_native_exception-Raises : (msg : String) → Raises 1 env (throw_native_exception msg)
  unfolding throw_native_exception
  throw_native_exception-Raises msg = Costs-free->>= (Costs-look _) λ e. throw-Raises _

  pub fail-Raises :
      {A : Type 0} (msg : String) (a : A) → Raises 1 env (throw_native_exception msg >> pure a)
  fail-Raises msg a = Costs->>-free (throw_native_exception-Raises msg) (Costs-pure a)

  throw_with-Raises : (e : Exception) → Raises 1 env (throw_with e)
  unfolding throw_with
  throw_with-Raises e = Costs->>-free (throw-Raises _) (Costs-pure _)

  pub wrap_error-Raises : (msg : String) (n : ℤ) → Raises 1 env (wrap_error msg n)
  unfolding wrap_error
  wrap_error-Raises msg n = Costs-when _ (Costs-pure _) (
      Costs-when _ (Costs-pure _) (
        Costs-when _ (throw_with-Raises _) (
          Costs-when _ (throw_with-Raises _) (
            Costs-when _ (throw_with-Raises _)
              (Costs-when _ (throw_with-Raises _) (throw_with-Raises _))))))

  new_literal-Raises : (text : String) → Raises 0 env (new_literal text)
  unfolding new_literal
  new_literal-Raises text = Costs-free->>= (Costs-read _) λ p. new_string_utf-Raises p

  pub get_inner_allocator_native-Raises : Raises 0 env get_inner_allocator_native
  unfolding get_inner_allocator_native name_private_allocator
  get_inner_allocator_native-Raises = Costs-free->>= (Costs-read _) λ private.
      Costs-when _
        (Costs-free->>= mi_version-Raises λ version. Costs-free->>= (Costs-look _) λ name.
          Costs-free->>= (snprintf-Raises name _ _ _)
            λ written. Costs-when _ (new_literal-Raises _) (new_string_utf-Raises name))
        (new_literal-Raises _)

Fetched-cost :
    {func : StringGetter} {handle : ℤ} {t : Trace} {r : Option Ref × World}
    → Fetched func handle t r
    → cost raises r.1.trace ≤ 1 + cost raises t
Fetched-cost (fetched n m p r h e) = rw e (omega arith)
Fetched-cost (unmeasured n x h c e) = rw e (omega arith)
Fetched-cost (without_size x e) = rw e (omega arith)
Fetched-cost (without_memory n x e) = rw e (omega arith)
Fetched-cost (unfilled n m p x h c e) = rw e (omega arith)

pub get_dynamic_string-Raises :
    {env : Env} (func : StringGetter) (handle : ℤ) → Raises 1 env (get_dynamic_string func handle)
get_dynamic_string-Raises {env} func handle = record {
  within = λ w. Fetched-cost (get_dynamic_string-Fetched func handle env w);
}
