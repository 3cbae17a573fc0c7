-- ===== src/Track.antt =====
-- jni/src/native_track.c.
pub mod Ownership
pub mod Quiet
pub mod Inherit
pub mod Exceptions
use libdatachannel_java.Prelude.{Option}
use libdatachannel_java.Prelude.Int.{ℤ}
use libdatachannel_java.Native.Event.{
  Ref, rtc_add_track, rtc_add_track_ex, rtc_get_track_description, rtc_get_track_direction,
  rtc_get_track_mid, rtc_delete_track,
}
use libdatachannel_java.Native.World.{M, pure, ◌>>=◌, ◌>>◌, look}
use libdatachannel_java.Native.Calls.{rtc}
use libdatachannel_java.Util.{
  throw_failed_get_str, throw_native_exception, wrap_error, exception_thrown, get_dynamic_string,
}
use libdatachannel_java.Strings.{with_chars, release_if_string}
use libdatachannel_java.Channel.Create.{inherit_user_pointer}

unfoldable pub add_track : ℤ → (sdp : Option Ref) → M ℤ
add_track peer sdp =
    with_chars sdp (do throw_failed_get_str "sdp"; pure exception_thrown)
      λ chars. do
        result ← rtc (rtc_add_track peer chars)
        inherit_user_pointer result peer
        release_if_string sdp chars
        pure result

unfoldable pub add_track_ex : ℤ → (direction codec : ℤ) → M ℤ
add_track_ex peer direction codec = rtc (rtc_add_track_ex peer direction codec)

unfoldable pub get_track_description : ℤ → M (Option Ref)
get_track_description track = get_dynamic_string rtc_get_track_description track

-- `direction` is not initialised before rtc fills it, and the error is not tested.
unfoldable pub get_track_direction : ℤ → M ℤ
get_track_direction track = do
  result ← rtc (rtc_get_track_direction track)
  wrap_error "rtcGetTrackDirection(trackHandle, &direction)" result
  look (λ env t. env.track_direction t track)

unfoldable pub get_track_mid : ℤ → M (Option Ref)
get_track_mid track = get_dynamic_string rtc_get_track_mid track

unfoldable pub delete_track : ℤ → M ℤ
delete_track track = rtc (rtc_delete_track track)
