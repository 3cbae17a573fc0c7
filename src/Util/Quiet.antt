-- ===== src/Util/Quiet.antt =====
-- The listeners and user pointers under the helpers of jni/src/util.c.
use libdatachannel_java.Prelude.{String, none, some}
use libdatachannel_java.Prelude.Int.{ℤ}
use libdatachannel_java.Native.Event.{Ptr, Exception, StringGetter}
use libdatachannel_java.Native.World.{Env, pure, ◌>>◌}
use libdatachannel_java.Logic.Stays.{
  Stays-read, mi_version-Stays, snprintf-Stays, Stays, Stays-pure, Stays->>=, Stays->>, Stays-when,
  Stays-look, rtc-Stays, throw-Stays, free-Stays, malloc-Stays, new_string_utf-Stays,
  new_string_of_block-Stays,
}
use libdatachannel_java.Util.{
  new_literal, name_private_allocator, get_inner_allocator_native, throw_native_exception,
  throw_with, wrap_error, fill_and_convert, get_dynamic_string,
}

module _ {env : Env} {peer : ℤ} where
  pub throw_native_exception-Stays : (msg : String) → Stays env peer (throw_native_exception msg)
  unfolding throw_native_exception
  throw_native_exception-Stays msg = Stays->>= (Stays-look _) λ e. throw-Stays _

  pub fail-Stays :
      {A : Type 0} (msg : String) (a : A) → Stays env peer (throw_native_exception msg >> pure a)
  fail-Stays msg a = Stays->> (throw_native_exception-Stays msg) (Stays-pure a)

  throw_with-Stays : (e : Exception) → Stays env peer (throw_with e)
  unfolding throw_with
  throw_with-Stays e = Stays->> (throw-Stays _) (Stays-pure _)

  pub wrap_error-Stays : (msg : String) (n : ℤ) → Stays env peer (wrap_error msg n)
  unfolding wrap_error
  wrap_error-Stays msg n = Stays-when _ (Stays-pure _) (
      Stays-when _ (Stays-pure _) (
        Stays-when _ (throw_with-Stays _) (
          Stays-when _ (throw_with-Stays _) (
            Stays-when _ (throw_with-Stays _)
              (Stays-when _ (throw_with-Stays _) (throw_with-Stays _))))))

  fill_and_convert-Stays :
      (func : StringGetter) (handle size : ℤ) (m : Ptr)
      → Stays env peer (fill_and_convert func handle size m)
  unfolding fill_and_convert
  fill_and_convert-Stays func handle size m = Stays->>= (rtc-Stays _) λ n.
      Stays->>= (wrap_error-Stays _ n) λ status.
        Stays-when _ (Stays->> (free-Stays _) (Stays-pure none))
          (Stays->>= (new_string_of_block-Stays _) λ r. Stays->> (free-Stays _) (Stays-pure r))

  pub get_dynamic_string-Stays :
      (func : StringGetter) (handle : ℤ) → Stays env peer (get_dynamic_string func handle)
  unfolding get_dynamic_string
  get_dynamic_string-Stays func handle = Stays->>= (rtc-Stays _) λ needed.
      Stays->>= (wrap_error-Stays _ needed) λ size. Stays-when _ (Stays-pure none) (
        Stays-when _ (fail-Stays _ none) (
          Stays->>= (malloc-Stays _) (elim [
            | none ↦ fail-Stays _ none
            | some m ↦ fill_and_convert-Stays func handle size m
          ])))

  new_literal-Stays : (text : String) → Stays env peer (new_literal text)
  unfolding new_literal
  new_literal-Stays text = Stays->>= (Stays-read _) λ p. new_string_utf-Stays p

  pub get_inner_allocator_native-Stays : Stays env peer get_inner_allocator_native
  unfolding get_inner_allocator_native name_private_allocator
  get_inner_allocator_native-Stays = Stays->>= (Stays-read _) λ private.
      Stays-when _
        (Stays->>= mi_version-Stays λ version. Stays->>= (Stays-look _) λ name.
          Stays->>= (snprintf-Stays name _ _ _)
            λ written. Stays-when _ (new_literal-Stays _) (new_string_utf-Stays name))
        (new_literal-Stays _)
