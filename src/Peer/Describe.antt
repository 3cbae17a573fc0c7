-- ===== src/Peer/Describe.antt =====
-- Session descriptions, candidates and addresses in jni/src/native_peer.c.
pub mod Ownership
pub mod Quiet
pub mod Arguments
pub mod Exceptions
use libdatachannel_java.Prelude.{ℕ, Option, none, some}
use libdatachannel_java.Prelude.Int.{ℤ, pos, int_lt}
use libdatachannel_java.Native.Event.{
  Ptr, Ref, rtc_set_local_description, rtc_set_remote_description, rtc_add_remote_candidate,
  rtc_get_selected_candidate_pair, rtc_get_local_description, rtc_get_local_description_type,
  rtc_get_remote_description, rtc_get_remote_description_type, rtc_get_local_address,
  rtc_get_remote_address,
}
use libdatachannel_java.Native.World.{M, pure, ◌>>=◌, ◌>>◌, when◌then◌else◌}
use libdatachannel_java.Native.Calls.{
  malloc, free, get_string_utf_chars, release_string_utf_chars, parse_candidate_pair, rtc,
}
use libdatachannel_java.Util.{
  throw_failed_get_str, throw_failed_malloc, throw_native_exception, wrap_error, exception_thrown,
  get_dynamic_string,
}
use libdatachannel_java.Strings.{with_chars, release_if_chars}

unfoldable pub set_local_description : ℤ → Option Ref → M ℤ
set_local_description peer none = do
  result ← rtc (rtc_set_local_description peer none)
  wrap_error "rtcSetLocalDescription(peerHandle, NULL)" result
set_local_description peer (some type) = do
  c_type ← get_string_utf_chars type
  elim c_type [
    | none ↦ (do throw_failed_get_str "type"; pure exception_thrown)
    | some c ↦ do
      result ← rtc (rtc_set_local_description peer (some c))
      status ← wrap_error "rtcSetLocalDescription(peerHandle, c_type)" result
      release_string_utf_chars (some type) (some c)
      pure status
  ]

-- From `c_sdp` on.
set_remote_from : ℤ → Ref → Option Ref → Ptr → M ℤ
set_remote_from peer sdp type c_sdp =
    with_chars type
      (do
        release_string_utf_chars (some sdp) (some c_sdp)
        throw_failed_get_str "type"
        pure exception_thrown)
      λ c_type. do
        result ← rtc (rtc_set_remote_description peer c_sdp c_type)
        status ← wrap_error "rtcSetRemoteDescription(peerHandle, c_sdp, c_type)" result
        release_string_utf_chars (some sdp) (some c_sdp)
        release_if_chars type c_type
        pure status

unfoldable pub set_remote_description : ℤ → (sdp type : Option Ref) → M ℤ
unfolding set_remote_from
set_remote_description peer none type = do
  throw_native_exception "sdp must not be null"
  pure exception_thrown
set_remote_description peer (some sdp) type = do
  c_sdp ← get_string_utf_chars sdp
  elim c_sdp [
    | none ↦ (do throw_failed_get_str "sdp"; pure exception_thrown)
    | some c ↦ set_remote_from peer sdp type c
  ]

unfoldable pub add_remote_candidate : ℤ → (candidate media_id : Option Ref) → M ℤ
add_remote_candidate peer candidate media_id =
    with_chars candidate (do throw_failed_get_str "candidate"; pure exception_thrown)
      λ c_candidate.
        with_chars media_id
          (do
            release_if_chars candidate c_candidate
            throw_failed_get_str "mediaId"
            pure exception_thrown)
          λ c_media_id. do
            result ← rtc (rtc_add_remote_candidate peer c_candidate c_media_id)
            release_if_chars candidate c_candidate
            release_if_chars media_id c_media_id
            pure result

-- The size of both buffers.
abbrev pub buf_size : ℕ
buf_size = 50

candidate_pair_from : ℤ → (local remote : Ptr) → M (Option Ref)
candidate_pair_from peer local remote = do
  result ← rtc (rtc_get_selected_candidate_pair peer local (pos buf_size) remote (pos buf_size))
  when int_lt result (pos 0)
      then (do free (some local); free (some remote); wrap_error "result" result; pure none)
      else (do
        candidate_pair ← parse_candidate_pair local remote
        free (some local)
        free (some remote)
        pure candidate_pair)

remote_buffer : ℤ → Ptr → M (Option Ref)
unfolding candidate_pair_from
remote_buffer peer local = do
  remote ← malloc buf_size
  elim remote [
    | none ↦ do free (some local); throw_failed_malloc "remote"; pure none
    | some r ↦ candidate_pair_from peer local r
  ]

unfoldable pub get_selected_candidate_pair : ℤ → M (Option Ref)
unfolding remote_buffer
get_selected_candidate_pair peer = do
  local ← malloc buf_size
  elim local [ none ↦ (do throw_failed_malloc "local"; pure none) | some l ↦ remote_buffer peer l ]

unfoldable pub get_local_description : ℤ → M (Option Ref)
get_local_description peer = get_dynamic_string rtc_get_local_description peer

unfoldable pub get_local_description_type : ℤ → M (Option Ref)
get_local_description_type peer = get_dynamic_string rtc_get_local_description_type peer

unfoldable pub get_remote_description : ℤ → M (Option Ref)
get_remote_description peer = get_dynamic_string rtc_get_remote_description peer

unfoldable pub get_remote_description_type : ℤ → M (Option Ref)
get_remote_description_type peer = get_dynamic_string rtc_get_remote_description_type peer

unfoldable pub get_local_address : ℤ → M (Option Ref)
get_local_address peer = get_dynamic_string rtc_get_local_address peer

unfoldable pub get_remote_address : ℤ → M (Option Ref)
get_remote_address peer = get_dynamic_string rtc_get_remote_address peer
