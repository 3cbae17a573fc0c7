-- ===== src/Examples.antt =====
-- A machine and a world on which the theorems are tried: a JVM with direct buffers of 64 bytes at
-- address 4096, an allocator that always answers, and an rtc library whose answers are fixed.
pub mod Allocators
pub mod Ledgers
pub mod Limits
pub mod Listeners
pub mod Loads
pub mod Messages
pub mod Races
pub mod Turns
use libdatachannel_java.Prelude.{
  ℕ, ◌+◌, Bool, true, false, Option, none, some, List, [], ◌∷◌, String,
}
use libdatachannel_java.Prelude.Int.{ℤ, pos, negsuc}
use libdatachannel_java.Native.Event.{
  Ptr, Ref, Trace, RtcCall, RtcReliability, rtc_get_string, rtc_create_peer_connection,
  rtc_create_data_channel_ex, rtc_add_track,
}
use libdatachannel_java.Native.World.{World, Env, Globals, JvmCallback, ThreadAttachment}

-- A fresh number: one that grows with the trace.
abbrev pub fresh : Trace → ℕ
fresh [] = 100
fresh (e ∷ t) = fresh t + 1

abbrev pub reliable : RtcReliability
reliable = record {
  unordered = false;
  unreliable = false;
  max_packet_life_time = pos 0;
  max_retransmits = pos 0;
}

-- Handle 1 is a peer, 2 a channel, 3 a track; strings have 5 bytes, all else succeeds.
abbrev pub answer : RtcCall → ℤ
answer (rtc_create_peer_connection c) = pos 1
answer (rtc_create_data_channel_ex h l i) = pos 2
answer (rtc_add_track h sdp) = pos 3
answer (rtc_get_string g h b n) = pos 5
answer c = pos 0

abbrev pub machine : Env
machine = record {
  sizeof_pointer = 8;
  sizeof_jvm_callback = 16;
  sizeof_thread_attachment = 16;
  is_windows = false;
  is_ios = false;
  to_field = λ f n. n;
  private_allocator = false;
  malloc = λ t n. some (fresh t);
  errno = λ t. pos 0;
  vsnprintf_l = λ t p n f. pos 7;
  snprintf = λ t p n f xs. pos 21;
  literal = λ s. 50;
  local_array = λ t. 60;
  mi = λ t c. some (fresh t);
  mi_posix_memalign = λ t a s. (pos 0, some (fresh t));
  mi_version = λ t. 217;
  get_array_length = λ t a. pos 2;
  get_object_array_element = λ t a i. some (fresh t);
  get_string_utf_chars = λ t s. some (fresh t);
  get_java_vm = λ t. pos 0;
  java_vm = λ t. some 1;
  new_global_ref = λ t r. some (fresh t);
  new_string_utf = λ t p. some (fresh t);
  new_direct_byte_buffer = λ t p n. some (fresh t);
  get_direct_buffer_address = λ t b. some 4096;
  get_direct_buffer_capacity = λ t b. pos 64;
  find_class = λ t s. some (fresh t);
  vm_get_env = λ t vm. negsuc 1;
  vm_attach = λ t vm. pos 0;
  current_env = λ t. some 9;
  java_allocate = λ t n. some (fresh t);
  parse_candidate_pair = λ t l r. some (fresh t);
  create_reliability = λ t r. some (fresh t);
  rtc = λ t c. answer c;
  get_user_pointer = λ t h. some 200;
  received_size = λ t h. pos 16;
  track_direction = λ t h. pos 1;
  channel_reliability = λ t h. reliable;
  crypto_hooks_private = λ t. false;
  crypto_set_mem_functions = λ t. pos 1;
  fls_alloc = λ t. some 3;
  fls_get_value = λ t k. none;
  fls_set_value = λ t k p. true;
  get_current_thread_id = λ t. 7;
}

abbrev pub detached : ThreadAttachment
detached = record { vm = none; owner = 0 }

-- The library is loaded for the JVM 1, and the listener behind 200 is the reference 201.
abbrev pub running_globals : Globals
running_globals = record { global_jvm = some 1; jvm_unloading = false; jvm_loaded = true }

abbrev pub world_after : Trace → World
world_after t = record {
  globals = running_globals;
  callbacks = λ p. record { vm = some 1; instance_ref = some 201 };
  attachments = λ p. detached;
  attachment = detached;
  attachment_key = none;
  trace = t;
}

abbrev pub start : World
start = world_after []
