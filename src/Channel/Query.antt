-- ===== src/Channel/Query.antt =====
-- The functions of jni/src/native_channel.c that pass one question on to rtc.
pub mod Ownership
use libdatachannel_java.Prelude.{Option, Bool, not}
use libdatachannel_java.Prelude.Int.{ℤ, pos, int_eq}
use libdatachannel_java.Native.Event.{
  Ref, rtc_get_max_data_channel_stream, rtc_get_remote_max_message_size, rtc_close,
  rtc_delete_data_channel, rtc_is_closed, rtc_is_open, rtc_max_message_size,
  rtc_set_buffered_amount_low_threshold, rtc_get_available_amount, rtc_get_buffered_amount,
  rtc_get_data_channel_stream, rtc_get_data_channel_label, rtc_get_data_channel_protocol,
  rtc_get_data_channel_reliability,
}
use libdatachannel_java.Native.World.{M, pure, ◌>>=◌, ◌>>◌, look}
use libdatachannel_java.Native.Calls.{rtc, create_reliability}
use libdatachannel_java.Util.{wrap_error, get_dynamic_string}

unfoldable pub get_max_data_channel_stream : ℤ → M ℤ
get_max_data_channel_stream peer = rtc (rtc_get_max_data_channel_stream peer)

unfoldable pub get_remote_max_message_size : ℤ → M ℤ
get_remote_max_message_size peer = rtc (rtc_get_remote_max_message_size peer)

unfoldable pub close : ℤ → M ℤ
close channel = rtc (rtc_close channel)

unfoldable pub delete_data_channel : ℤ → M ℤ
delete_data_channel channel = rtc (rtc_delete_data_channel channel)

-- A `bool` of rtc, as the `int` that the call answers with.
unfoldable pub is_closed : ℤ → M Bool
is_closed channel = do answer ← rtc (rtc_is_closed channel); pure (not (int_eq answer (pos 0)))

unfoldable pub is_open : ℤ → M Bool
is_open channel = do answer ← rtc (rtc_is_open channel); pure (not (int_eq answer (pos 0)))

unfoldable pub max_message_size : ℤ → M ℤ
max_message_size channel = rtc (rtc_max_message_size channel)

unfoldable pub set_buffered_amount_low_threshold : (channel amount : ℤ) → M ℤ
set_buffered_amount_low_threshold channel amount =
    rtc (rtc_set_buffered_amount_low_threshold channel amount)

unfoldable pub get_available_amount : ℤ → M ℤ
get_available_amount channel = do
  result ← rtc (rtc_get_available_amount channel)
  wrap_error "rtcGetAvailableAmount(channelHandle)" result

unfoldable pub get_buffered_amount : ℤ → M ℤ
get_buffered_amount channel = do
  result ← rtc (rtc_get_buffered_amount channel)
  wrap_error "rtcGetBufferedAmount(channelHandle)" result

unfoldable pub get_data_channel_stream : ℤ → M ℤ
get_data_channel_stream channel = do
  result ← rtc (rtc_get_data_channel_stream channel)
  wrap_error "rtcGetDataChannelStream(channelHandle)" result

unfoldable pub get_data_channel_label : ℤ → M (Option Ref)
get_data_channel_label channel = get_dynamic_string rtc_get_data_channel_label channel

unfoldable pub get_data_channel_protocol : ℤ → M (Option Ref)
get_data_channel_protocol channel = get_dynamic_string rtc_get_data_channel_protocol channel

-- The structure is not initialised before rtc fills it, and the error is not tested.
unfoldable pub get_data_channel_reliability : ℤ → M (Option Ref)
get_data_channel_reliability channel = do
  result ← rtc (rtc_get_data_channel_reliability channel)
  wrap_error "rtcGetDataChannelReliability(channelHandle, &reliability)" result
  reliability ← look (λ env t. env.channel_reliability t channel)
  create_reliability reliability
