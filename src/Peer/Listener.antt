-- ===== src/Peer/Listener.antt =====
-- The listener of a peer in jni/src/native_peer.c: setup, closing and deletion.
pub mod Ownership
pub mod Exceptions
use libdatachannel_java.Prelude.{Bool, Option, none, some, ◌||◌}
use libdatachannel_java.Prelude.Int.{ℤ, int_eq}
use libdatachannel_java.Native.Event.{
  Ptr, Ref, rtc_close_peer_connection, rtc_delete_peer_connection,
}
use libdatachannel_java.Native.World.{M, pure, ◌>>=◌, ◌>>◌, when◌then◌else◌}
use libdatachannel_java.Native.Calls.{rtc, set_user_pointer, get_user_pointer}
use libdatachannel_java.Util.{throw_native_exception, err_success, err_invalid, exception_thrown}
use libdatachannel_java.Callback.{allocate_callback, free_callback}

finish_setup : ℤ → Option Ptr → M ℤ
finish_setup peer (some cb) = do set_user_pointer peer (some cb); pure err_success
finish_setup peer none = do
  throw_native_exception "Failed to allocate callback for PeerConnectionListener"
  pure exception_thrown

unfoldable pub setup_peer_connection_listener : ℤ → Option Ref → M ℤ
unfolding finish_setup
setup_peer_connection_listener peer listener = do
  jvm_callback ← allocate_callback listener
  finish_setup peer jvm_callback

unfoldable pub close_peer_connection : ℤ → M ℤ
close_peer_connection peer = rtc (rtc_close_peer_connection peer)

-- `if ((result == RTC_ERR_SUCCESS || result == RTC_ERR_INVALID) && callback != NULL)`
release_listener : ℤ → Option Ptr → M (Unit {0})
release_listener result none = pure tt
release_listener result (some cb) =
    when int_eq result err_success || int_eq result err_invalid then free_callback cb else pure tt

unfoldable pub delete_peer_connection : ℤ → M ℤ
unfolding release_listener
delete_peer_connection peer = do
  callback ← get_user_pointer peer
  result ← rtc (rtc_delete_peer_connection peer)
  release_listener result callback
  pure result
