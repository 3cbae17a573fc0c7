-- ===== src/Channel/Handlers.antt =====
-- The handlers that jni/src/native_channel.c registers with rtc.
use libdatachannel_java.Prelude.{Bool, Option, none, some}
use libdatachannel_java.Prelude.Int.{ℤ, pos, int_lt}
use libdatachannel_java.Peer.Handlers.{set_callback}
use libdatachannel_java.Native.Event
use libdatachannel_java.Native.Event.{
  Ptr, Ref, on_channel_open, on_channel_closed, on_channel_error, on_channel_text_message,
  on_channel_binary_message, on_channel_buffered_amount_low, on_channel_available,
}
use libdatachannel_java.Native.World.{M, pure, ◌>>=◌, ◌>>◌, when◌then◌else◌}
use libdatachannel_java.Native.Calls.{
  new_string_utf, new_direct_byte_buffer, delete_local_ref, upcall,
}
use libdatachannel_java.Native.Memory.{load_callback}
use libdatachannel_java.Init.{get_jni_env}
use libdatachannel_java.Callback.{dispatch_jni}

unfoldable pub handle_channel_open : ℤ → Option Ptr → M (Unit {0})
handle_channel_open channel ptr = dispatch_jni ptr (on_channel_open channel)

unfoldable pub handle_channel_closed : ℤ → Option Ptr → M (Unit {0})
handle_channel_closed channel ptr = dispatch_jni ptr (on_channel_closed channel)

unfoldable pub handle_channel_error : ℤ → Ptr → Option Ptr → M (Unit {0})
handle_channel_error channel error ptr = dispatch_jni ptr (on_channel_error channel error)

unfoldable pub deliver_text : ℤ → Ptr → Ptr → M (Unit {0})
deliver_text channel message cb = do
  text ← new_string_utf message
  c ← load_callback cb
  upcall c.instance_ref (on_channel_text_message channel text)
  delete_local_ref text

unfoldable pub deliver_binary : ℤ → Ptr → ℤ → Ptr → M (Unit {0})
deliver_binary channel message size cb = do
  buffer ← new_direct_byte_buffer message size
  c ← load_callback cb
  upcall c.instance_ref (on_channel_binary_message channel buffer)
  delete_local_ref buffer

-- A negative size is that of a text.
unfoldable pub deliver : ℤ → Ptr → ℤ → Ptr → M (Unit {0})
unfolding deliver_text deliver_binary
deliver channel message size cb =
    when int_lt size (pos 0)
    then deliver_text channel message cb
    else deliver_binary channel message size cb

unfoldable pub deliver_if : ℤ → Ptr → ℤ → Ptr → Option Ref → M (Unit {0})
unfolding deliver
deliver_if channel message size cb none = pure tt
deliver_if channel message size cb (some _) = deliver channel message size cb

unfoldable pub handle_channel_message : ℤ → Ptr → ℤ → Option Ptr → M (Unit {0})
unfolding deliver_if
handle_channel_message channel message size none = pure tt
handle_channel_message channel message size (some cb) = do
  env ← get_jni_env
  deliver_if channel message size cb env

unfoldable pub handle_channel_buffered_amount_low : ℤ → Option Ptr → M (Unit {0})
handle_channel_buffered_amount_low channel ptr =
    dispatch_jni ptr (on_channel_buffered_amount_low channel)

unfoldable pub handle_channel_available : ℤ → Option Ptr → M (Unit {0})
handle_channel_available channel ptr = dispatch_jni ptr (on_channel_available channel)

-- The instances of SET_CALLBACK_INTERFACE_IMPL.
unfoldable pub rtc_set_open_callback : ℤ → Bool → M ℤ
unfolding set_callback
rtc_set_open_callback = set_callback Event.handle_channel_open

unfoldable pub rtc_set_closed_callback : ℤ → Bool → M ℤ
unfolding set_callback
rtc_set_closed_callback = set_callback Event.handle_channel_closed

unfoldable pub rtc_set_error_callback : ℤ → Bool → M ℤ
unfolding set_callback
rtc_set_error_callback = set_callback Event.handle_channel_error

unfoldable pub rtc_set_message_callback : ℤ → Bool → M ℤ
unfolding set_callback
rtc_set_message_callback = set_callback Event.handle_channel_message

unfoldable pub rtc_set_buffered_amount_low_callback : ℤ → Bool → M ℤ
unfolding set_callback
rtc_set_buffered_amount_low_callback = set_callback Event.handle_channel_buffered_amount_low

unfoldable pub rtc_set_available_callback : ℤ → Bool → M ℤ
unfolding set_callback
rtc_set_available_callback = set_callback Event.handle_channel_available
