-- ===== src/Util.antt =====
-- jni/src/util.h and jni/src/util.c: error codes to exceptions, and strings of unknown length.
pub mod Errors
pub mod InnerAllocator
pub mod Fetch
pub mod Exceptions
pub mod Ownership
pub mod Quiet
use Prim.Native.String.{◌++◌}
use libdatachannel_java.Prelude.{
  List, [], ◌∷◌, ◌/◌, ◌||◌, ℕ, Bool, Option, none, some, String, ◌+◌, ◌-◌, ◌%◌, ◌^◌, if◌then◌else◌,
}
use libdatachannel_java.Prelude.Int.{ℤ, pos, negsuc, pos_part, neg_part, int_eq, int_lt, int_le}
use libdatachannel_java.Native.Event.{
  Ptr, Ref, Exception, invalid_exception, failure_exception, not_available_exception,
  too_small_exception, unknown_failure_exception, native_operation_exception, StringGetter,
  rtc_get_local_description, rtc_get_local_description_type, rtc_get_remote_description,
  rtc_get_remote_description_type, rtc_get_local_address, rtc_get_remote_address,
  rtc_get_data_channel_label, rtc_get_data_channel_protocol, rtc_get_track_description,
  rtc_get_track_mid, rtc_get_string,
}
use libdatachannel_java.Native.World.{when◌then◌else◌, M, pure, ◌>>=◌, ◌>>◌, look, read}
use libdatachannel_java.Native.Calls.{
  malloc, free, throw, new_string_utf, new_string_of_block, rtc, mi_version, snprintf,
}

-- The codes of the rtc library, as LibDataChannelException lists them.
abbrev pub err_success : ℤ
err_success = pos 0

abbrev pub err_invalid : ℤ
err_invalid = negsuc 0

abbrev pub err_failure : ℤ
err_failure = negsuc 1

abbrev pub err_not_avail : ℤ
err_not_avail = negsuc 2

abbrev pub err_too_small : ℤ
err_too_small = negsuc 3

-- -999
abbrev pub exception_thrown : ℤ
exception_thrown = negsuc 998

-- The text of `strerror` is not kept.
unfoldable pub throw_native_exception : String → M (Unit {0})
throw_native_exception msg = do
  error_number ← look (λ env t. env.errno t)
  throw (native_operation_exception msg error_number)

-- `#expr` is spelled in THROW_FAILED_GET_STR and THROW_FAILED_MALLOC.
abbrev pub throw_failed_get_str : (expr : String) → M (Unit {0})
throw_failed_get_str expr = throw_native_exception ("failed to get string for " ++ expr)

abbrev pub throw_failed_malloc : (expr : String) → M (Unit {0})
throw_failed_malloc expr = throw_native_exception ("failed to malloc for " ++ expr)

throw_with : Exception → M ℤ
throw_with e = do throw e; pure exception_thrown

unfoldable pub wrap_error : String → ℤ → M ℤ
unfolding throw_with
wrap_error message result =
    when int_lt (pos 0) result
    then pure result
    else when int_eq result err_success
    then pure err_success
    else when int_eq result err_invalid
    then throw_with (invalid_exception message)
    else when int_eq result err_failure
    then throw_with (failure_exception message)
    else when int_eq result err_not_avail
    then throw_with (not_available_exception message)
    else when int_eq result err_too_small
    then throw_with (too_small_exception message)
    else throw_with (unknown_failure_exception result message)

-- What `#func` spells in GET_DYNAMIC_STRING.
abbrev pub name_of : StringGetter → String
name_of rtc_get_local_description = "rtcGetLocalDescription"
name_of rtc_get_local_description_type = "rtcGetLocalDescriptionType"
name_of rtc_get_remote_description = "rtcGetRemoteDescription"
name_of rtc_get_remote_description_type = "rtcGetRemoteDescriptionType"
name_of rtc_get_local_address = "rtcGetLocalAddress"
name_of rtc_get_remote_address = "rtcGetRemoteAddress"
name_of rtc_get_data_channel_label = "rtcGetDataChannelLabel"
name_of rtc_get_data_channel_protocol = "rtcGetDataChannelProtocol"
name_of rtc_get_track_description = "rtcGetTrackDescription"
name_of rtc_get_track_mid = "rtcGetTrackMid"

-- From the second call of `func` on, with the buffer at `memory`.
unfoldable pub fill_and_convert : StringGetter → ℤ → ℤ → Ptr → M (Option Ref)
fill_and_convert func handle size memory = do
  written ← rtc (rtc_get_string func handle (some memory) size)
  status ← wrap_error (name_of func) written
  when int_eq status exception_thrown
      then (do free (some memory); pure none)
      else (do result ← new_string_of_block memory; free (some memory); pure result)

unfoldable pub get_dynamic_string : StringGetter → ℤ → M (Option Ref)
unfolding fill_and_convert
get_dynamic_string func handle = do
  needed ← rtc (rtc_get_string func handle none (negsuc 0))
  size ← wrap_error "" needed
  when int_eq size exception_thrown
      then pure none
      else when int_le size (pos 0)
      then (do throw_native_exception "Invalid dynamic string size"; pure none)
      else do
        allocated ← malloc (pos_part size)
        elim allocated [
          | none ↦ (do throw_native_exception "Failed to allocate memory for string"; pure none)
          | some memory ↦ fill_and_convert func handle size memory
        ]

-- `(void*) (intptr_t) address`, at 64 bits.
abbrev pub pointer_of : ℤ → Option Ptr
pointer_of address =
    if int_eq address (pos 0)
    then none
    else some ((pos_part address + 2 ^ 64 - neg_part address) % 2 ^ 64)

unfoldable pub free_memory : ℤ → M (Unit {0})
free_memory address = free (pointer_of address)

-- `major`, `minor` and `patch` of a version of mimalloc.
abbrev pub version_parts : ℕ → List ℕ
version_parts version = version / 100 ∷ (version / 10) % 10 ∷ version % 10 ∷ []

-- `sizeof(allocator_name)`
abbrev pub sizeof_allocator_name : ℕ
sizeof_allocator_name = 64

new_literal : String → M (Option Ref)
new_literal text = do p ← read (λ env. env.literal text); new_string_utf p

name_private_allocator : M (Option Ref)
unfolding new_literal
name_private_allocator = do
  version ← mi_version
  allocator_name ← look (λ env t. env.local_array t)
  written ←
      snprintf allocator_name sizeof_allocator_name "mimalloc-secure+%d.%d.%d"
        (version_parts version)
  when int_le written (pos 0) || int_le (pos sizeof_allocator_name) written
      then new_literal "mimalloc-secure"
      else new_string_utf allocator_name

unfoldable pub get_inner_allocator_native : M (Option Ref)
unfolding name_private_allocator new_literal
get_inner_allocator_native = do
  private ← read (λ env. env.private_allocator)
  when private then name_private_allocator else new_literal "passthrough"
