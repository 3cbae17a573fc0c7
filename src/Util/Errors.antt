-- ===== src/Util/Errors.antt =====
-- What wrap_error reports: the exception that stands for the code, or the code itself.
use libdatachannel_java.Prelude.{
  ◌≡◌, refl, sym, ap, subst, Bool, true, false, not, Option, none, some, String, ◌∷◌, arith,
}
use libdatachannel_java.Prelude.Int.{ℤ, pos, negsuc, int_eq, int_lt, ◌≤ℤ◌, ◌<ℤ◌}
use libdatachannel_java.Native.Event.{
  Exception, invalid_exception, failure_exception, not_available_exception, too_small_exception,
  unknown_failure_exception, native_operation_exception, illegal_state_exception, throw,
}
use libdatachannel_java.Native.World.{World, Env, pure, ◌>>=◌, ◌>>◌, when-run, emit}
use libdatachannel_java.Native.Calls
use libdatachannel_java.Util.{
  wrap_error, throw_with, exception_thrown, err_success, err_invalid, err_failure, err_not_avail,
  err_too_small,
}

-- The code and the message that an exception's constructor hands to LibDataChannelException.
abbrev pub code_of : Exception → Option ℤ
code_of (invalid_exception m) = some err_invalid
code_of (failure_exception m) = some err_failure
code_of (not_available_exception m) = some err_not_avail
code_of (too_small_exception m) = some err_too_small
code_of (unknown_failure_exception n m) = some n
code_of (native_operation_exception m n) = none
code_of (illegal_state_exception m) = none

abbrev pub message_of : Exception → String
message_of (invalid_exception m) = m
message_of (failure_exception m) = m
message_of (not_available_exception m) = m
message_of (too_small_exception m) = m
message_of (unknown_failure_exception n m) = m
message_of (native_operation_exception m n) = m
message_of (illegal_state_exception m) = m

abbrev pub is_unknown : Exception → Bool
is_unknown (unknown_failure_exception n m) = true
is_unknown _ = false

-- The codes that have a class of their own: -4 to -1.
abbrev pub is_listed : ℤ → Bool
is_listed n = int_lt (negsuc 4) n

-- The outcome of wrap_error: a code that is not negative is returned and nothing happens; for a
-- negative one a single exception is thrown, which carries this very code and message, of a class of
-- its own if the code is listed, and EXCEPTION_THROWN is returned.
pub data Wrapped (message : String) (n : ℤ) (w : World) : ℤ × World → Type 0 where
  passed : pos 0 ≤ℤ n → Wrapped message n w (n, w)
  thrown :
      (e : Exception)
      → n <ℤ pos 0
      → code_of e ≡ some n
      → message_of e ≡ message
      → is_unknown e ≡ not (is_listed n)
      → Wrapped message n w (exception_thrown, record w { trace = throw e ∷ w.trace })

int_eq-eq : (a b : ℤ) → int_eq a b ≡ true → a ≡ b
int_eq-eq (pos a) (pos b) e = ground arith
int_eq-eq (pos a) (negsuc b) e = cc
int_eq-eq (negsuc a) (pos b) e = cc
int_eq-eq (negsuc a) (negsuc b) e = ground arith

negative : (n : ℤ) → int_lt (pos 0) n ≡ false → int_eq n err_success ≡ false → n <ℤ pos 0
negative (pos k) e f = ground arith
negative (negsuc k) e f = omega arith

unlisted :
    (n : ℤ)
    → int_lt (pos 0) n ≡ false
    → int_eq n err_success ≡ false
    → int_eq n err_invalid ≡ false
    → int_eq n err_failure ≡ false
    → int_eq n err_not_avail ≡ false
    → int_eq n err_too_small ≡ false
    → is_listed n ≡ false
unlisted (pos k) p q a b c d = ground arith
unlisted (negsuc k) p q a b c d = ground arith

module _ (message : String) (n : ℤ) (env : Env) (w : World) where
  throw_with-Wrapped :
      (e : Exception)
      → n <ℤ pos 0
      → code_of e ≡ some n
      → message_of e ≡ message
      → is_unknown e ≡ not (is_listed n)
      → Wrapped message n w (throw_with e env w)
  unfolding throw_with ◌>>=◌ ◌>>◌ pure Calls.throw emit
  throw_with-Wrapped e h c m u = thrown e h c m u

  -- A class of its own for the code `c`.
  listed :
      (e : Exception) (c : ℤ)
      → int_eq n c ≡ true
      → c <ℤ pos 0
      → code_of e ≡ some c
      → message_of e ≡ message
      → is_unknown e ≡ not (is_listed c)
      → Wrapped message n w (throw_with e env w)
  listed e c p h k m u =
      let q : c ≡ n = sym (int_eq-eq n c p) in
      throw_with-Wrapped e (subst (λ x. x <ℤ pos 0) q h) (subst (λ x. code_of e ≡ some x) q k) m
        (subst (λ x. is_unknown e ≡ not (is_listed x)) q u)

  succeeded : int_eq n err_success ≡ true → Wrapped message n w (pure err_success env w)
  unfolding pure
  succeeded p =
      subst (λ x. Wrapped message x w (err_success, w)) (sym (int_eq-eq n err_success p))
        (passed (omega arith))

  -- WRAP_ERROR returns a code that is not negative and does nothing else. For a negative one it
  -- throws one exception, which carries this code and this message and is of a class of its own
  -- exactly if the code is one of -1 to -4, and returns EXCEPTION_THROWN.
  pub wrap_error-Wrapped : Wrapped message n w (wrap_error message n env w)
  unfolding wrap_error pure
  wrap_error-Wrapped =
      when-run (Wrapped message n w) _ _ _ env w (λ p. passed (ground arith))
        λ p₀.
          when-run (Wrapped message n w) _ _ _ env w (λ p. succeeded p)
            λ p₁.
              when-run (Wrapped message n w) _ _ _ env w
                (λ p. listed _ err_invalid p (omega arith) refl refl refl)
                λ p₂.
                  when-run (Wrapped message n w) _ _ _ env w
                    (λ p. listed _ err_failure p (omega arith) refl refl refl)
                    λ p₃.
                      when-run (Wrapped message n w) _ _ _ env w
                        (λ p. listed _ err_not_avail p (omega arith) refl refl refl)
                        λ p₄.
                          when-run (Wrapped message n w) _ _ _ env w
                            (λ p. listed _ err_too_small p (omega arith) refl refl refl)
                            λ p₅.
                              throw_with-Wrapped _ (negative n p₀ p₁) refl refl
                                (sym (ap not (unlisted n p₀ p₁ p₂ p₃ p₄ p₅)))
