-- ===== src/Channel/Transfer/Outcomes.antt =====
-- What rtcSendMessage of jni/src/native_channel.c does on each branch; the child modules have the
-- functions that receive.
pub mod Into
pub mod New
use libdatachannel_java.Prelude.{
  ℕ, ◌+◌, ◌≤◌, ◌≡◌, refl, ap, ◌∙◌, Bool, true, false, Option, none, some, [], ◌∷◌, arith,
}
use libdatachannel_java.Prelude.Int.{ℤ, pos, negsuc, pos_part, neg, int_eq, ◌≤ℤ◌, ◌<ℤ◌}
use libdatachannel_java.Native.Event.{
  Ptr, Ref, Event, Trace, Exception, rtc, throw, rtc_send_message, rtc_receive_message,
  get_direct_buffer_address, get_direct_buffer_capacity,
}
use libdatachannel_java.Native.World.{World, Env, pure, ◌>>=◌, ◌>>◌, when-run, ask, emit, look}
use libdatachannel_java.Native.Calls
use libdatachannel_java.Util.{
  throw_native_exception, exception_thrown, err_success, err_not_avail, err_too_small, wrap_error,
}
use libdatachannel_java.Util.Errors.{code_of, Wrapped, passed, thrown, wrap_error-Wrapped}
use libdatachannel_java.Channel.Transfer.{
  bad_offset, bad_length, bad_range, send_from, send_at, send_message, receive_result,
  receive_range, receive_from, receive_message_into,
}

-- `n` bytes from `offset` on lie within a capacity.
pub data Fits : (capacity offset n : ℤ) → Type 0 where
  fits : {k o n : ℕ} → o + n ≤ k → Fits (pos k) (pos o) (pos n)

-- The same, or a text, whose length is negative, from `offset` on.
pub data IsSendable : (capacity offset length : ℤ) → Type 0 where
  bytes : {k o n : ℕ} → o + n ≤ k → IsSendable (pos k) (pos o) (pos n)
  text : {k o n : ℕ} → o ≤ k → IsSendable (pos k) (pos o) (negsuc n)

pub Fits-good : (k o n : ℤ) → bad_range k o n ≡ false → Fits k o n
Fits-good (pos k) (pos o) (pos n) e = fits (ground arith)
Fits-good (pos k) (pos o) (negsuc n) e = absurd (ground arith)
Fits-good (pos k) (negsuc o) n e = absurd (ground arith)
Fits-good (negsuc k) o n e = absurd (ground arith)

pub Fits-bad : (k o n : ℤ) → bad_range k o n ≡ true → ¬ Fits k o n
Fits-bad (pos k) (pos o) (pos n) e (fits h) = ground arith
Fits-bad (pos k) (pos o) (negsuc n) e h = elim h [ ]
Fits-bad (pos k) (negsuc o) n e h = elim h [ ]
Fits-bad (negsuc k) o n e h = elim h [ ]

IsSendable-good : (k o n : ℤ) → bad_offset k o ≡ false → bad_length k o n ≡ false → IsSendable k o n
IsSendable-good (pos k) (pos o) (pos n) e f = bytes (ground arith)
IsSendable-good (pos k) (pos o) (negsuc n) e f = text (ground arith)
IsSendable-good (pos k) (negsuc o) n e f = absurd (ground arith)
IsSendable-good (negsuc k) o n e f = absurd (ground arith)

IsSendable-bad_offset : (k o n : ℤ) → bad_offset k o ≡ true → ¬ IsSendable k o n
IsSendable-bad_offset (pos k) (pos o) (pos n) e (bytes h) = ground arith
IsSendable-bad_offset (pos k) (pos o) (negsuc n) e (text h) = ground arith
IsSendable-bad_offset (pos k) (negsuc o) n e h = elim h [ ]
IsSendable-bad_offset (negsuc k) o n e h = elim h [ ]

IsSendable-bad_length : (k o n : ℤ) → bad_length k o n ≡ true → ¬ IsSendable k o n
IsSendable-bad_length (pos k) (pos o) (pos n) e (bytes h) = ground arith
IsSendable-bad_length (pos k) (pos o) (negsuc n) e (text h) = ground arith
IsSendable-bad_length (pos k) (negsuc o) n e h = elim h [ ]
IsSendable-bad_length (negsuc k) o n e h = elim h [ ]

-- The two questions about a direct buffer, and their answers.
abbrev pub located : Ref → Ptr → ℤ → Trace → Trace
located b base k t = get_direct_buffer_capacity b k ∷ get_direct_buffer_address b (some base) ∷ t

-- The outcomes of rtcSendMessage: rtc is asked once, with the bytes or the text at the offset, and its
-- answer is returned; or it is not asked, and one exception is thrown unless there is no buffer.
pub data Sent (channel offset length : ℤ) (t : Trace) : Option Ref → ℤ × World → Type 0 where
  no_buffer : {w : World} → w.trace ≡ t → Sent channel offset length t none (err_success, w)
  not_direct :
      {w : World} (b : Ref) (e : Exception)
      → w.trace ≡ throw e ∷ get_direct_buffer_address b none ∷ t
      → Sent channel offset length t (some b) (exception_thrown, w)
  out_of_range :
      {w : World} (b : Ref) (base : Ptr) (k : ℤ) (e : Exception)
      → ¬ IsSendable k offset length
      → w.trace ≡ throw e ∷ located b base k t
      → Sent channel offset length t (some b) (exception_thrown, w)
  sent :
      {w : World} (b : Ref) (base : Ptr) (k n : ℤ)
      → IsSendable k offset length
      → w.trace
        ≡ rtc (rtc_send_message channel (base + pos_part offset) length) n ∷ located b base k t
      → Sent channel offset length t (some b) (n, w)

pub newer : {x : Event} {t u : Trace} → t ≡ u → (x ∷ t) ≡ (x ∷ u)
newer {x} e = ap (λ l. x ∷ l) e

module _ (channel offset length : ℤ) (env : Env) (w : World) where
  send_from-Sent :
      (b : Ref) (base : Ptr) {t : Trace}
      → w.trace ≡ get_direct_buffer_address b (some base) ∷ t
      → Sent channel offset length t (some b) (send_from channel b offset length base env w)
  unfolding send_from ◌>>=◌ ◌>>◌ ask look pure emit throw_native_exception Calls.throw Calls.rtc
      Calls.get_direct_buffer_capacity
  send_from-Sent b base {t} q =
      let k : ℤ = env.get_direct_buffer_capacity w.trace b in
      let e = ap (λ l. get_direct_buffer_capacity b k ∷ l) q in
      when-run (Sent channel offset length t (some b)) (bad_offset k offset) _ _ env _
        (λ h. out_of_range b base k _ (IsSendable-bad_offset k offset length h) (newer e))
        λ h.
          when-run (Sent channel offset length t (some b)) (bad_length k offset length) _ _ env _
            (λ h'. out_of_range b base k _ (IsSendable-bad_length k offset length h') (newer e))
            λ h'. sent b base k _ (IsSendable-good k offset length h h') (newer e)

  send_at-Sent :
      (b : Ref) (o : Option Ptr) {t : Trace}
      → w.trace ≡ get_direct_buffer_address b o ∷ t
      → Sent channel offset length t (some b) (send_at channel b offset length o env w)
  unfolding send_at ◌>>=◌ ◌>>◌ look pure emit throw_native_exception Calls.throw
  send_at-Sent b none q = not_direct b _ (newer q)
  send_at-Sent b (some base) q = send_from-Sent b base q

-- In any environment and from any state: rtcSendMessage answers RTC_ERR_SUCCESS without a buffer and
-- does nothing. Else it asks the JVM for the address and the capacity; if the bytes from the offset
-- on, as many as the length says, are within the capacity, or for a negative length only the offset
-- is, it asks rtc once to send from there, and returns rtc's answer without an exception. If they are
-- not, or the buffer is not direct, it asks rtc nothing, throws exactly one exception and answers
-- EXCEPTION_THROWN.
pub send_message-Sent :
    (channel : ℤ) (b : Option Ref) (offset length : ℤ) (env : Env) (w : World)
    → Sent channel offset length w.trace b (send_message channel b offset length env w)
unfolding send_message ◌>>=◌ pure ask Calls.get_direct_buffer_address
send_message-Sent channel none offset length env w = no_buffer refl
send_message-Sent channel (some b) offset length env w =
    send_at-Sent channel offset length env _ b _ refl
