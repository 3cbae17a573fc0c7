-- ===== src/Channel/Create.antt =====
-- rtcCreateDataChannelEx of jni/src/native_channel.c.
pub mod Ownership
pub mod Quiet
pub mod Arguments
pub mod Inherit
pub mod Exceptions
use libdatachannel_java.Prelude.{Bool, Option, none}
use libdatachannel_java.Prelude.Int.{ℤ, pos, int_le}
use libdatachannel_java.Native.Event.{
  Ptr, Ref, RtcField, to_max_packet_life_time, to_max_retransmits, to_stream, RtcReliability,
  RtcDataChannelInit, rtc_create_data_channel_ex,
}
use libdatachannel_java.Native.World.{M, read, pure, ◌>>=◌, ◌>>◌, when◌then◌else◌}
use libdatachannel_java.Native.Calls.{rtc, set_user_pointer, get_user_pointer}
use libdatachannel_java.Util.{throw_failed_get_str, throw_native_exception, exception_thrown}
use libdatachannel_java.Strings.{with_chars, release_if_chars}

-- The arguments that are no references.
pub record ChannelOptions : Type 0 where
  pub unordered : Bool
  pub unreliable : Bool
  pub max_packet_life_time : ℤ
  pub max_retransmits : ℤ
  pub negotiated : Bool
  pub stream : ℤ
  pub manual_stream : Bool

abbrev pub channel_init : (RtcField → ℤ → ℤ) → ChannelOptions → Option Ptr → RtcDataChannelInit
channel_init field o protocol = record {
  reliability = record {
    unordered = o.unordered;
    unreliable = o.unreliable;
    max_packet_life_time = field to_max_packet_life_time o.max_packet_life_time;
    max_retransmits = field to_max_retransmits o.max_retransmits;
  };
  protocol = protocol;
  negotiated = o.negotiated;
  stream = field to_stream o.stream;
  manual_stream = o.manual_stream;
}

-- `rtcSetUserPointer(result, rtcGetUserPointer(peerHandle))`
unfoldable pub inherit_user_pointer : (result peer : ℤ) → M (Unit {0})
inherit_user_pointer result peer = do ptr ← get_user_pointer peer; set_user_pointer result ptr

module _ (peer : ℤ) (o : ChannelOptions) (label protocol : Option Ref) where
  create_channel_with : (c_label c_protocol : Option Ptr) → M ℤ
  create_channel_with c_label c_protocol = do
    field ← read (λ env. env.to_field)
    result ← rtc (rtc_create_data_channel_ex peer c_label (channel_init field o c_protocol))
    release_if_chars label c_label
    release_if_chars protocol c_protocol
    when int_le (pos 0) result then inherit_user_pointer result peer else pure tt
    pure result

  no_protocol : Option Ptr → M ℤ
  no_protocol c_label = do
    release_if_chars label c_label
    throw_failed_get_str "protocol"
    pure exception_thrown

  unfoldable pub create_data_channel_ex : M ℤ
  unfolding create_channel_with no_protocol
  create_data_channel_ex =
      with_chars label (do throw_failed_get_str "label"; pure exception_thrown)
        λ c_label. with_chars protocol (no_protocol c_label) (create_channel_with c_label)
