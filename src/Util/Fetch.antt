-- ===== src/Util/Fetch.antt =====
-- How get_dynamic_string of jni/src/util.c asks rtc for a string twice.
use libdatachannel_java.Prelude.{ℕ, ◌≡◌, refl, ap, ◌∙◌, ◌<◌, true, Option, none, some, ◌∷◌, arith}
use libdatachannel_java.Prelude.Int.{ℤ, pos, negsuc, pos_part, int_eq, int_le, ◌<ℤ◌}
use libdatachannel_java.Native.Event.{
  Ptr, Ref, Trace, Exception, StringGetter, native_operation_exception, rtc_get_string, rtc, throw,
  malloc, free, new_string_of_block,
}
use libdatachannel_java.Native.World.{
  World, Env, M, pure, ◌>>=◌, ◌>>◌, when◌then◌else◌, when-run, emit, ask, look,
}
use libdatachannel_java.Native.Calls
use libdatachannel_java.Util.{
  exception_thrown, name_of, throw_native_exception, fill_and_convert, get_dynamic_string,
}
use libdatachannel_java.Util.Errors.{code_of, Wrapped, passed, thrown, wrap_error-Wrapped}

-- The first call of the getter, and its answer.
abbrev pub measured : StringGetter → ℤ → ℤ → Trace → Trace
measured func handle n t = rtc (rtc_get_string func handle none (negsuc 0)) n ∷ t

-- The second call, with a new buffer of `n` bytes.
abbrev pub filled : StringGetter → ℤ → ℕ → Ptr → ℤ → Trace → Trace
filled func handle n p m t =
    rtc (rtc_get_string func handle (some p) (pos n)) m
    ∷ malloc n (some p)
    ∷ measured func handle (pos n) t

-- The outcomes: the string that is made from the buffer, which is freed; or `NULL` and exactly one
-- exception, because rtc refuses the first call, the string has no size, there is no memory, or rtc
-- refuses the second call.
pub data Fetched (func : StringGetter) (handle : ℤ) (t : Trace) : Option Ref × World → Type 0 where
  fetched :
      (n m : ℕ) (p : Ptr) (r : Option Ref) {w : World}
      → 0 < n
      → w.trace ≡ free (some p) ∷ new_string_of_block p r ∷ filled func handle n p (pos m) t
      → Fetched func handle t (r, w)
  unmeasured :
      (n : ℤ) (e : Exception) {w : World}
      → n <ℤ pos 0
      → code_of e ≡ some n
      → w.trace ≡ throw e ∷ measured func handle n t
      → Fetched func handle t (none, w)
  without_size :
      (e : Exception) {w : World}
      → w.trace ≡ throw e ∷ measured func handle (pos 0) t
      → Fetched func handle t (none, w)
  without_memory :
      (n : ℕ) (e : Exception) {w : World}
      → w.trace ≡ throw e ∷ malloc n none ∷ measured func handle (pos n) t
      → Fetched func handle t (none, w)
  unfilled :
      (n : ℕ) (m : ℤ) (p : Ptr) (e : Exception) {w : World}
      → m <ℤ pos 0
      → code_of e ≡ some m
      → w.trace ≡ free (some p) ∷ throw e ∷ filled func handle n p m t
      → Fetched func handle t (none, w)

-- From the size on, which wrap_error has let pass.
rest_of : StringGetter → ℤ → ℤ → M (Option Ref)
rest_of func handle size =
    when int_eq size exception_thrown
    then pure none
    else when int_le size (pos 0)
    then (do throw_native_exception "Invalid dynamic string size"; pure none)
    else do
      allocated ← Calls.malloc (pos_part size)
      elim allocated as (λ _. M (Option Ref)) [
        | none ↦ (do throw_native_exception "Failed to allocate memory for string"; pure none)
        | some memory ↦ fill_and_convert func handle size memory
      ]

-- A size that passes and is at most 0.
no_size : (n : ℕ) → int_le (pos n) (pos 0) ≡ true → n ≡ 0
no_size n h = ground arith

module _ (func : StringGetter) (handle : ℤ) (env : Env) {t : Trace} where
  filled-Fetched :
      (n : ℕ) (p : Ptr) (m : ℤ) {w : World} {r : ℤ × World}
      → 0 < n
      → w.trace ≡ filled func handle n p m t
      → Wrapped (name_of func) m w r
      → Fetched func handle t (
          (when int_eq r.0 exception_thrown
              then (do Calls.free (some p); pure none)
              else (do result ← Calls.new_string_of_block p; Calls.free (some p); pure result))
            env r.1)
  unfolding when◌then◌else◌ ◌>>◌ ◌>>=◌ pure emit ask Calls.free Calls.new_string_of_block
  filled-Fetched n p (pos m) h e (passed k) = fetched n m p _ h (rw e refl)
  filled-Fetched n p (negsuc m) h e (passed k) = absurd (ground arith)
  filled-Fetched n p m h e (thrown x l c _ _) = unfilled n m p x l c (rw e refl)

  fill_and_convert-Fetched :
      (n : ℕ) (p : Ptr) (w : World)
      → 0 < n
      → w.trace ≡ malloc n (some p) ∷ measured func handle (pos n) t
      → Fetched func handle t (fill_and_convert func handle (pos n) p env w)
  unfolding fill_and_convert ◌>>=◌ ask Calls.rtc
  fill_and_convert-Fetched n p w h e =
      filled-Fetched n p _ h (rw e refl) (wrap_error-Wrapped (name_of func) _ env _)

  allocated-Fetched :
      (n : ℕ) (o : Option Ptr) (w : World)
      → 0 < n
      → w.trace ≡ malloc n o ∷ measured func handle (pos n) t
      → Fetched func handle t (
          (elim o as (λ _. M (Option Ref)) [
            | none ↦ (do throw_native_exception "Failed to allocate memory for string"; pure none)
            | some memory ↦ fill_and_convert func handle (pos n) memory
          ])
            env w)
  unfolding throw_native_exception ◌>>◌ ◌>>=◌ pure emit look Calls.throw
  allocated-Fetched n none w h e =
      let x =
        native_operation_exception "Failed to allocate memory for string" (env.errno w.trace) in
      without_memory n x (ap (λ l. throw x ∷ l) e)
  allocated-Fetched n (some p) w h e = fill_and_convert-Fetched n p w h e

  sized-Fetched :
      (n : ℕ) (w : World)
      → w.trace ≡ measured func handle (pos n) t
      → Fetched func handle t (rest_of func handle (pos n) env w)
  unfolding rest_of when◌then◌else◌ throw_native_exception ◌>>◌ ◌>>=◌ pure emit look ask Calls.throw
      Calls.malloc
  sized-Fetched n w e =
      when-run (Fetched func handle t) (int_le (pos n) (pos 0)) _ _ env w
        (λ h.
          let x = native_operation_exception "Invalid dynamic string size" (env.errno w.trace) in
          without_size x (
            ap (λ l. throw x ∷ l) e
            ∙ ap (λ k. throw x ∷ measured func handle (pos k) t) (no_size n h)))
        (λ h. allocated-Fetched n _ _ (ground arith) (rw e refl))

  measured-Fetched :
      (n : ℤ) {w : World} {r : ℤ × World}
      → w.trace ≡ measured func handle n t
      → Wrapped "" n w r
      → Fetched func handle t (rest_of func handle r.0 env r.1)
  unfolding rest_of when◌then◌else◌ pure
  measured-Fetched (pos n) {w} e (passed k) = sized-Fetched n w e
  measured-Fetched (negsuc n) e (passed k) = absurd (ground arith)
  measured-Fetched n e (thrown x l c _ _) = unmeasured n x l c (ap (λ l. throw x ∷ l) e)

-- For every getter and handle, in any environment and from any state: get_dynamic_string asks rtc
-- for the size, obtains a buffer of exactly that size, which is not 0, lets rtc fill exactly it,
-- returns the Java string that is made from it, and frees it after that. Or it returns `NULL` and
-- has thrown exactly one exception: with rtc's code if rtc refuses the first or the second call, or
-- because the size is 0 or there is no memory; and the buffer is freed.
pub get_dynamic_string-Fetched :
    (func : StringGetter) (handle : ℤ) (env : Env) (w : World)
    → Fetched func handle w.trace (get_dynamic_string func handle env w)
unfolding get_dynamic_string rest_of ◌>>=◌ ask Calls.rtc
get_dynamic_string-Fetched func handle env w =
    measured-Fetched func handle env _ refl (wrap_error-Wrapped "" _ env _)
