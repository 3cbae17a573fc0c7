-- ===== src/Channel/Transfer/Outcomes/New.antt =====
-- What rtcReceiveMessage of jni/src/native_channel.c does on each branch.
use libdatachannel_java.Prelude.{
  ◌≡◌, refl, sym, subst, String, true, false, Option, none, some, Option-cases, inl, inr, ◌∷◌,
  arith,
}
use libdatachannel_java.Prelude.Int.{ℤ, pos, int_eq, int_lt, ◌≤ℤ◌, ◌<ℤ◌}
use libdatachannel_java.Native.Event.{
  Ptr, Ref, Trace, Exception, rtc, throw, rtc_receive_message, get_direct_buffer_address,
  java_allocate, delete_local_ref,
}
use libdatachannel_java.Native.World.{World, Env, pure, ◌>>=◌, ◌>>◌, when-run, ask, emit, look}
use libdatachannel_java.Native.Calls
use libdatachannel_java.Util.{throw_native_exception, err_not_avail}
use libdatachannel_java.Util.Errors.{code_of, Wrapped, passed, thrown, wrap_error-Wrapped}
use libdatachannel_java.Channel.Transfer.{receive_at, receive_into_new, receive_message}
use libdatachannel_java.Channel.Transfer.Outcomes.{newer}

-- The first call of rtc, without a buffer; a refusal is thrown.
pub data Measured (channel : ℤ) (t : Trace) : Trace → Type 0 where
  measured :
      (n : ℤ)
      → pos 0 ≤ℤ n
      → Measured channel t (rtc (rtc_receive_message channel none (pos 0)) n ∷ t)
  unmeasured :
      (n : ℤ) (e : Exception)
      → n <ℤ pos 0
      → code_of e ≡ some n
      → Measured channel t (throw e ∷ rtc (rtc_receive_message channel none (pos 0)) n ∷ t)

-- A new buffer of `size` bytes and its address.
abbrev pub acquired : ℤ → Ref → Option Ptr → Trace → Trace
acquired size b p u = get_direct_buffer_address b p ∷ java_allocate size (some b) ∷ u

-- The second call of rtc, which fills exactly that buffer.
abbrev pub taken : (channel size : ℤ) → Ref → Ptr → ℤ → Trace → Trace
taken channel size b p n u =
    rtc (rtc_receive_message channel (some p) size) n ∷ acquired size b (some p) u

-- The outcomes from the size on, which is not 0.
pub data Taken (channel size : ℤ) (u : Trace) : Option Ref × World → Type 0 where
  not_allocated :
      {w : World} → w.trace ≡ java_allocate size none ∷ u → Taken channel size u (none, w)
  not_direct :
      {w : World} (b : Ref) (e : Exception)
      → w.trace ≡ throw e ∷ delete_local_ref (some b) ∷ acquired size b none u
      → Taken channel size u (none, w)
  received :
      {w : World} (b : Ref) (p : Ptr) (n : ℤ)
      → pos 0 ≤ℤ n
      → w.trace ≡ taken channel size b p n u
      → Taken channel size u (some b, w)
  gone :
      {w : World} (b : Ref) (p : Ptr) (n : ℤ)
      → int_eq n err_not_avail ≡ true
      → w.trace ≡ delete_local_ref (some b) ∷ taken channel size b p n u
      → Taken channel size u (none, w)
  refused :
      {w : World} (b : Ref) (p : Ptr) (n : ℤ) (e : Exception)
      → n <ℤ pos 0
      → int_eq n err_not_avail ≡ false
      → code_of e ≡ some n
      → w.trace ≡ delete_local_ref (some b) ∷ throw e ∷ taken channel size b p n u
      → Taken channel size u (none, w)

-- The outcomes of rtcReceiveMessage.
pub data Received (channel : ℤ) (env : Env) (t : Trace) : Option Ref × World → Type 0 where
  no_message :
      {u : Trace} {w : World}
      → Measured channel t u
      → int_eq (env.received_size u (pos 0)) (pos 0) ≡ true
      → w.trace ≡ u
      → Received channel env t (none, w)
  with_size :
      {u : Trace} {r : Option Ref × World}
      → Measured channel t u
      → int_eq (env.received_size u (pos 0)) (pos 0) ≡ false
      → Taken channel (env.received_size u (pos 0)) u r
      → Received channel env t r

passes : (n : ℤ) → int_lt n (pos 0) ≡ false → pos 0 ≤ℤ n
passes n h = ground arith

module _ (channel size : ℤ) (env : Env) {u : Trace} where
  refused-Taken :
      (b : Ref) (p : Ptr) (n : ℤ) {w : World} {r : ℤ × World}
      → w.trace ≡ taken channel size b p n u
      → int_lt n (pos 0) ≡ true
      → int_eq n err_not_avail ≡ false
      → Wrapped "result" n w r
      → Taken channel size u ((Calls.delete_local_ref (some b) >> pure none) env r.1)
  unfolding ◌>>=◌ ◌>>◌ pure emit Calls.delete_local_ref
  refused-Taken b p n e l h (passed k) = absurd (ground arith)
  refused-Taken b p n e l h (thrown x k c _ _) = refused b p n x k h c (newer (newer e))

  receive_at-Taken :
      (b : Ref) (p : Ptr) (w : World)
      → w.trace ≡ acquired size b (some p) u
      → Taken channel size u (receive_at channel size b p env w)
  unfolding receive_at ◌>>=◌ ◌>>◌ ask pure emit Calls.rtc Calls.delete_local_ref
  receive_at-Taken b p w e =
      let n : ℤ = env.rtc w.trace (rtc_receive_message channel (some p) size) in
      when-run (Taken channel size u) (int_eq n err_not_avail) _ _ env _
        (λ h. gone b p n h (newer (newer e)))
        λ h.
          when-run (Taken channel size u) (int_lt n (pos 0)) _ _ env _
            (λ l. refused-Taken b p n (newer e) l h (wrap_error-Wrapped "result" n env _))
            λ l. received b p n (passes n l) (newer e)

  receive_into_new-Taken :
      (w : World) → w.trace ≡ u → Taken channel size u (receive_into_new channel size env w)
  unfolding receive_into_new ◌>>=◌ ◌>>◌ ask look pure emit throw_native_exception Calls.throw
      Calls.java_allocate Calls.get_direct_buffer_address Calls.delete_local_ref
  receive_into_new-Taken w e = elim (Option-cases (env.java_allocate w.trace size)) [
    | inl q ↦ rw q (not_allocated (newer e))
    | inr (b, q) ↦
        elim (Option-cases
          (env.get_direct_buffer_address (java_allocate size (some b) ∷ w.trace) b)) [
            | inl q' ↦ rw q (rw q' (not_direct b _ (newer (newer (newer (newer e))))))
            | inr (p, q') ↦ rw q (rw q' (receive_at-Taken b p _ (newer (newer e))))
          ]
  ]

Wrapped-Measured :
    (channel n : ℤ) (t : Trace) (msg : String) (w : World) (r : ℤ × World)
    → w.trace ≡ rtc (rtc_receive_message channel none (pos 0)) n ∷ t
    → Wrapped msg n w r
    → Measured channel t r.1.trace
Wrapped-Measured channel n t msg w r e (passed h) =
    subst (Measured channel t) (sym e) (measured n h)
Wrapped-Measured channel n t msg w r e (thrown x h c _ _) =
    subst (Measured channel t) (sym (newer e)) (unmeasured n x h c)

-- In any environment and from any state: rtcReceiveMessage asks rtc for the size of the next message,
-- and throws a negative answer in one exception with its code, but goes on. If the size is 0 it
-- returns NULL. Else it lets Java allocate a buffer of exactly that size and asks rtc to fill it, and
-- returns it if rtc's answer is not negative. In every other case it returns NULL: if there is no
-- buffer; if it is not direct, which is thrown; if rtc has no message after all; or if rtc answers
-- with another negative code, which is thrown. The reference to a buffer is deleted in these cases.
pub receive_message-Received :
    (channel : ℤ) (env : Env) (w : World)
    → Received channel env w.trace (receive_message channel env w)
unfolding receive_message ◌>>=◌ ◌>>◌ ask look pure Calls.rtc
receive_message-Received channel env w =
    let n : ℤ = env.rtc w.trace (rtc_receive_message channel none (pos 0)) in
    let first = Wrapped-Measured channel n w.trace _ _ _ refl (
      wrap_error-Wrapped "rtcReceiveMessage(channelHandle, NULL, &size)" n env
        (record w { trace = rtc (rtc_receive_message channel none (pos 0)) n ∷ w.trace })) in
    when-run (Received channel env w.trace) _ _ _ env _ (λ h. no_message first h refl)
      λ h. with_size first h (receive_into_new-Taken channel _ env _ refl)
