-- ===== src/Channel/Transfer/Outcomes/Into.antt =====
-- What rtcReceiveMessageInto of jni/src/native_channel.c does on each branch.
use libdatachannel_java.Prelude.{◌+◌, ◌≡◌, refl, subst, true, false, Option, none, some, ◌∷◌}
use libdatachannel_java.Prelude.Int.{ℤ, pos, pos_part, neg, int_eq, ◌≤ℤ◌, ◌<ℤ◌}
use libdatachannel_java.Native.Event.{
  Ptr, Ref, Trace, Exception, rtc, throw, rtc_receive_message, get_direct_buffer_address,
}
use libdatachannel_java.Native.World.{World, Env, pure, ◌>>=◌, ◌>>◌, when-run, ask, emit, look}
use libdatachannel_java.Native.Calls
use libdatachannel_java.Util.{
  throw_native_exception, exception_thrown, err_not_avail, err_too_small,
}
use libdatachannel_java.Util.Errors.{code_of, Wrapped, passed, thrown, wrap_error-Wrapped}
use libdatachannel_java.Channel.Transfer.{
  bad_range, receive_result, receive_range, receive_from, receive_message_into,
}
use libdatachannel_java.Channel.Transfer.Outcomes.{Fits, Fits-good, Fits-bad, located, newer}

-- What becomes of rtc's answer `n`, where rtc has stored `size`.
pub data Result (n size : ℤ) (t : Trace) : ℤ × World → Type 0 where
  nothing_available :
      {w : World} → int_eq n err_not_avail ≡ true → w.trace ≡ t → Result n size t (pos 0, w)
  too_small :
      {w : World} → int_eq n err_too_small ≡ true → w.trace ≡ t → Result n size t (neg size, w)
  received : {w : World} → pos 0 ≤ℤ n → w.trace ≡ t → Result n size t (size, w)
  refused :
      {w : World} (e : Exception)
      → n <ℤ pos 0
      → int_eq n err_not_avail ≡ false
      → int_eq n err_too_small ≡ false
      → code_of e ≡ some n
      → w.trace ≡ throw e ∷ t
      → Result n size t (size, w)

-- The call of rtc, with its answer.
abbrev pub filled : (channel : ℤ) → Ptr → (offset capacity n : ℤ) → Trace → Trace
filled channel base offset capacity n t =
    rtc (rtc_receive_message channel (some (base + pos_part offset)) capacity) n ∷ t

-- The outcomes of rtcReceiveMessageInto.
pub data Filled (channel offset capacity : ℤ) (env : Env) (t : Trace)
    : Option Ref → ℤ × World → Type 0 where
  no_buffer : {w : World} → w.trace ≡ t → Filled channel offset capacity env t none (pos 0, w)
  not_direct :
      {w : World} (b : Ref) (e : Exception)
      → w.trace ≡ throw e ∷ get_direct_buffer_address b none ∷ t
      → Filled channel offset capacity env t (some b) (exception_thrown, w)
  out_of_range :
      {w : World} (b : Ref) (base : Ptr) (k : ℤ) (e : Exception)
      → ¬ Fits k offset capacity
      → w.trace ≡ throw e ∷ located b base k t
      → Filled channel offset capacity env t (some b) (exception_thrown, w)
  asked :
      {r : ℤ × World} (b : Ref) (base : Ptr) (k n : ℤ)
      → Fits k offset capacity
      → Result n
          (env.received_size (filled channel base offset capacity n (located b base k t)) capacity)
          (filled channel base offset capacity n (located b base k t))
          r
      → Filled channel offset capacity env t (some b) r

Wrapped-Result :
    {n size : ℤ} {t : Trace} {w : World} (r : ℤ × World)
    → int_eq n err_not_avail ≡ false
    → int_eq n err_too_small ≡ false
    → w.trace ≡ t
    → Wrapped "result" n w r
    → Result n size t (size, r.1)
Wrapped-Result r p q e (passed h) = received h e
Wrapped-Result r p q e (thrown x h c _ _) = refused x h p q c (newer e)

receive_result-Result :
    (capacity n : ℤ) (env : Env) (w : World)
    → Result n (env.received_size w.trace capacity) w.trace (receive_result capacity n env w)
unfolding receive_result look pure ◌>>=◌ ◌>>◌
receive_result-Result capacity n env w =
    when-run (Result n (env.received_size w.trace capacity) w.trace) _ _ _ env w
      (λ p. nothing_available p refl)
      λ p.
        when-run (Result n (env.received_size w.trace capacity) w.trace) _ _ _ env w
          (λ q. too_small q refl)
          λ q. Wrapped-Result _ p q refl (wrap_error-Wrapped "result" n env w)

module _ (channel offset capacity : ℤ) (env : Env) where
  -- A result over a trace that is known.
  asked_at :
      {t u : Trace} {r : ℤ × World} (b : Ref) (base : Ptr) (k n : ℤ)
      → Fits k offset capacity
      → u ≡ filled channel base offset capacity n (located b base k t)
      → Result n (env.received_size u capacity) u r
      → Filled channel offset capacity env t (some b) r
  asked_at {r = r} b base k n f e h =
      asked b base k n f (subst (λ l. Result n (env.received_size l capacity) l r) e h)

  receive_range-Filled :
      (b : Ref) (base : Ptr) (w : World) {t : Trace}
      → w.trace ≡ get_direct_buffer_address b (some base) ∷ t
      → Filled channel offset capacity env t
          (some b)
          (receive_range channel b offset capacity base env w)
  unfolding receive_range ◌>>=◌ ◌>>◌ ask look pure emit throw_native_exception Calls.throw Calls.rtc
      Calls.get_direct_buffer_capacity
  receive_range-Filled b base w {t} q =
      let k : ℤ = env.get_direct_buffer_capacity w.trace b in
      when-run (Filled channel offset capacity env t (some b)) (bad_range k offset capacity) _ _ env
        _ (λ h. out_of_range b base k _ (Fits-bad k offset capacity h) (newer (newer q)))
        λ h.
          asked_at b base k _ (Fits-good k offset capacity h) (newer (newer q))
            (receive_result-Result capacity _ env _)

  receive_from-Filled :
      (b : Ref) (o : Option Ptr) (w : World) {t : Trace}
      → w.trace ≡ get_direct_buffer_address b o ∷ t
      → Filled channel offset capacity env t
          (some b)
          (receive_from channel b offset capacity o env w)
  unfolding receive_from ◌>>=◌ ◌>>◌ look pure emit throw_native_exception Calls.throw
  receive_from-Filled b none w q = not_direct b _ (newer q)
  receive_from-Filled b (some base) w q = receive_range-Filled b base w q

-- In any environment and from any state: rtcReceiveMessageInto answers 0 without a buffer and does
-- nothing. Else it asks the JVM for the address and the capacity; if the given range fits into it, it
-- asks rtc once to fill that range, and answers 0 if rtc has nothing, the size that rtc stored with
-- the other sign if rtc found the range too small, and the size as it is otherwise, after one
-- exception with rtc's code where that is another negative one and none where it is not negative. If
-- the range does not fit, or the buffer is not direct, it asks rtc nothing, throws exactly one
-- exception and answers EXCEPTION_THROWN.
pub receive_message_into-Filled :
    (channel : ℤ) (b : Option Ref) (offset capacity : ℤ) (env : Env) (w : World)
    → Filled channel offset capacity env w.trace b
        (receive_message_into channel b offset capacity env w)
unfolding receive_message_into ◌>>=◌ pure ask Calls.get_direct_buffer_address
receive_message_into-Filled channel none offset capacity env w = no_buffer refl
receive_message_into-Filled channel (some b) offset capacity env w =
    receive_from-Filled channel offset capacity env b _ _ refl
