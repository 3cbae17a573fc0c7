-- ===== src/Peer/Handlers.antt =====
-- The handlers that jni/src/native_peer.c registers with rtc, and their registration
-- (SET_CALLBACK_INTERFACE_IMPL of jni/src/util.h).
use libdatachannel_java.Prelude.{Bool, Option}
use libdatachannel_java.Prelude.Int.{ℤ}
use libdatachannel_java.Native.Event
use libdatachannel_java.Native.Event.{
  Ptr, Handler, on_local_description, on_local_candidate, on_state_change, on_ice_state_change,
  on_gathering_state_change, on_signaling_state_change, on_data_channel, on_track, rtc_set_callback,
}
use libdatachannel_java.Native.World.{M, ◌>>◌}
use libdatachannel_java.Native.Calls.{rtc, set_user_pointer}
use libdatachannel_java.Callback.{dispatch_jni}

-- `api(handle, set ? target : NULL)`, for the `api` that belongs to `target`.
unfoldable pub set_callback : Handler → ℤ → Bool → M ℤ
set_callback target handle set = rtc (rtc_set_callback target handle set)

unfoldable pub handle_local_description : (sdp type : Ptr) → Option Ptr → M (Unit {0})
handle_local_description sdp type ptr = dispatch_jni ptr (on_local_description sdp type)

unfoldable pub handle_local_candidate : (candidate media_id : Ptr) → Option Ptr → M (Unit {0})
handle_local_candidate candidate media_id ptr =
    dispatch_jni ptr (on_local_candidate candidate media_id)

unfoldable pub handle_state_change : ℤ → Option Ptr → M (Unit {0})
handle_state_change state ptr = dispatch_jni ptr (on_state_change state)

unfoldable pub handle_ice_state_change : ℤ → Option Ptr → M (Unit {0})
handle_ice_state_change state ptr = dispatch_jni ptr (on_ice_state_change state)

unfoldable pub handle_gathering_state_change : ℤ → Option Ptr → M (Unit {0})
handle_gathering_state_change state ptr = dispatch_jni ptr (on_gathering_state_change state)

unfoldable pub handle_signaling_state_change : ℤ → Option Ptr → M (Unit {0})
handle_signaling_state_change state ptr = dispatch_jni ptr (on_signaling_state_change state)

unfoldable pub handle_data_channel : ℤ → Option Ptr → M (Unit {0})
handle_data_channel channel_handle ptr = do
  set_user_pointer channel_handle ptr
  dispatch_jni ptr (on_data_channel channel_handle)

unfoldable pub handle_track : ℤ → Option Ptr → M (Unit {0})
handle_track track_handle ptr = do
  set_user_pointer track_handle ptr
  dispatch_jni ptr (on_track track_handle)

-- The instances of SET_CALLBACK_INTERFACE_IMPL.
unfoldable pub rtc_set_local_description_callback : ℤ → Bool → M ℤ
unfolding set_callback
rtc_set_local_description_callback = set_callback Event.handle_local_description

unfoldable pub rtc_set_local_candidate_callback : ℤ → Bool → M ℤ
unfolding set_callback
rtc_set_local_candidate_callback = set_callback Event.handle_local_candidate

unfoldable pub rtc_set_state_change_callback : ℤ → Bool → M ℤ
unfolding set_callback
rtc_set_state_change_callback = set_callback Event.handle_state_change

unfoldable pub rtc_set_ice_state_change_callback : ℤ → Bool → M ℤ
unfolding set_callback
rtc_set_ice_state_change_callback = set_callback Event.handle_ice_state_change

unfoldable pub rtc_set_gathering_state_change_callback : ℤ → Bool → M ℤ
unfolding set_callback
rtc_set_gathering_state_change_callback = set_callback Event.handle_gathering_state_change

unfoldable pub rtc_set_signaling_state_change_callback : ℤ → Bool → M ℤ
unfolding set_callback
rtc_set_signaling_state_change_callback = set_callback Event.handle_signaling_state_change

unfoldable pub rtc_set_data_channel_callback : ℤ → Bool → M ℤ
unfolding set_callback
rtc_set_data_channel_callback = set_callback Event.handle_data_channel

unfoldable pub rtc_set_track_callback : ℤ → Bool → M ℤ
unfolding set_callback
rtc_set_track_callback = set_callback Event.handle_track
