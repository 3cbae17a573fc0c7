-- ===== src/Channel/Transfer.antt =====
-- Sending and receiving messages in jni/src/native_channel.c. A `jlong` sum of two `jint`s cannot
-- overflow, so the sums are those of integers; `(int) size` and pointers are not wrapped.
pub mod Bounds
pub mod Machine
pub mod Ownership
pub mod Quiet
pub mod Exceptions
pub mod Outcomes
use libdatachannel_java.Prelude.{ℕ, Bool, Option, none, some, ◌+◌, ◌&&◌, ◌||◌}
use libdatachannel_java.Prelude.Int.{ℤ, pos, pos_part, neg, int_eq, int_lt, int_le, ◌+ℤ◌}
use libdatachannel_java.Native.Event.{Ptr, Ref, rtc_send_message, rtc_receive_message}
use libdatachannel_java.Native.World.{M, pure, ◌>>=◌, ◌>>◌, when◌then◌else◌, look}
use libdatachannel_java.Native.Calls.{
  get_direct_buffer_address, get_direct_buffer_capacity, java_allocate, delete_local_ref, rtc,
}
use libdatachannel_java.Util.{
  throw_native_exception, wrap_error, err_success, err_not_avail, err_too_small, exception_thrown,
}

-- The tests of rtcSendMessage, the first two `if`s.
abbrev pub bad_offset : (capacity offset : ℤ) → Bool
bad_offset capacity offset =
    int_lt capacity (pos 0) || (int_lt offset (pos 0) || int_lt capacity offset)

abbrev pub bad_length : (capacity offset length : ℤ) → Bool
bad_length capacity offset length = int_le (pos 0) length && int_lt capacity (offset +ℤ length)

send_from : ℤ → Ref → (offset length : ℤ) → Ptr → M ℤ
send_from channel buffer_ref offset length buffer = do
  capacity ← get_direct_buffer_capacity buffer_ref
  when bad_offset capacity offset
      then (do throw_native_exception "Invalid buffer capacity or offset"; pure exception_thrown)
      else when bad_length capacity offset length
      then (do throw_native_exception "Invalid buffer length"; pure exception_thrown)
      else rtc (rtc_send_message channel (buffer + pos_part offset) length)

send_at : ℤ → Ref → (offset length : ℤ) → Option Ptr → M ℤ
unfolding send_from
send_at channel buffer_ref offset length (some buffer) =
    send_from channel buffer_ref offset length buffer
send_at channel buffer_ref offset length none = do
  throw_native_exception "LibDataChannel allocator must return a direct ByteBuffer"
  pure exception_thrown

unfoldable pub send_message : ℤ → Option Ref → (offset length : ℤ) → M ℤ
unfolding send_at
send_message channel none offset length = pure err_success
send_message channel (some buffer_ref) offset length = do
  address ← get_direct_buffer_address buffer_ref
  send_at channel buffer_ref offset length address

-- From the second rtcReceiveMessage on, with the buffer's memory at `target`.
receive_at : ℤ → ℤ → Ref → Ptr → M (Option Ref)
receive_at channel size byte_buffer target = do
  result ← rtc (rtc_receive_message channel (some target) size)
  when int_eq result err_not_avail
      then (do delete_local_ref (some byte_buffer); pure none)
      else when int_lt result (pos 0)
      then (do wrap_error "result" result; delete_local_ref (some byte_buffer); pure none)
      else pure (some byte_buffer)

receive_into_new : ℤ → ℤ → M (Option Ref)
unfolding receive_at
receive_into_new channel size = do
  byte_buffer ← java_allocate size
  elim byte_buffer [
    | none ↦ pure none
    | some b ↦ do
      target ← get_direct_buffer_address b
      elim target [
        | none ↦ do
          delete_local_ref (some b)
          throw_native_exception "LibDataChannel allocator must return a direct ByteBuffer"
          pure none
        | some t ↦ receive_at channel size b t
      ]
  ]

-- `size` is 0 before the first call and what rtc stored after it.
unfoldable pub receive_message : ℤ → M (Option Ref)
unfolding receive_into_new
receive_message channel = do
  result ← rtc (rtc_receive_message channel none (pos 0))
  wrap_error "rtcReceiveMessage(channelHandle, NULL, &size)" result
  size ← look (λ env t. env.received_size t (pos 0))
  when int_eq size (pos 0) then pure none else receive_into_new channel size

-- The tests of rtcReceiveMessageInto.
abbrev pub bad_range : (buffer_capacity offset capacity : ℤ) → Bool
bad_range buffer_capacity offset capacity =
    int_lt buffer_capacity (pos 0)
    || (int_lt offset (pos 0)
        || (int_lt capacity (pos 0)
            || (int_lt buffer_capacity offset || int_lt buffer_capacity (offset +ℤ capacity))))

receive_result : (capacity result : ℤ) → M ℤ
receive_result capacity result = do
  size ← look (λ env t. env.received_size t capacity)
  when int_eq result err_not_avail
      then pure (pos 0)
      else when int_eq result err_too_small
      then pure (neg size)
      else (do wrap_error "result" result; pure size)

receive_range : ℤ → Ref → (offset capacity : ℤ) → Ptr → M ℤ
unfolding receive_result
receive_range channel buffer offset capacity base = do
  buffer_capacity ← get_direct_buffer_capacity buffer
  when bad_range buffer_capacity offset capacity
      then (do
        throw_native_exception "Invalid buffer capacity, offset or length"
        pure exception_thrown)
      else (do
        result ← rtc (rtc_receive_message channel (some (base + pos_part offset)) capacity)
        receive_result capacity result)

receive_from : ℤ → Ref → (offset capacity : ℤ) → Option Ptr → M ℤ
unfolding receive_range
receive_from channel buffer offset capacity (some base) =
    receive_range channel buffer offset capacity base
receive_from channel buffer offset capacity none = do
  throw_native_exception "LibDataChannel allocator must return a direct ByteBuffer"
  pure exception_thrown

unfoldable pub receive_message_into : ℤ → Option Ref → (offset capacity : ℤ) → M ℤ
unfolding receive_from
receive_message_into channel none offset capacity = pure (pos 0)
receive_message_into channel (some buffer) offset capacity = do
  base ← get_direct_buffer_address buffer
  receive_from channel buffer offset capacity base
