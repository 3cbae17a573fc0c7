-- ===== src/Native/Event.antt =====
-- The calls that jni/src makes to the outside, each with its arguments and its answer.
-- Pointers and references are numbers, and `none` is `NULL`.
use libdatachannel_java.Prelude.{ℕ, Bool, Option, List, String}
use libdatachannel_java.Prelude.Int.{ℤ}

abbrev pub Ptr : Type 0
Ptr = ℕ

abbrev pub Ref : Type 0
Ref = ℕ

-- The exception classes under tel/schich/libdatachannel/exception.
pub data Exception : Type 0 where
  invalid_exception failure_exception not_available_exception : String → Exception
  too_small_exception : String → Exception
  unknown_failure_exception : ℤ → String → Exception
  native_operation_exception : String → ℤ → Exception
  illegal_state_exception : String → Exception

-- The methods of PeerConnectionListener that the handlers call.
pub data Upcall : Type 0 where
  on_local_description on_local_candidate : (a b : Ptr) → Upcall
  on_state_change on_ice_state_change on_gathering_state_change : ℤ → Upcall
  on_signaling_state_change on_data_channel on_track : ℤ → Upcall
  on_channel_open on_channel_closed on_channel_buffered_amount_low : ℤ → Upcall
  on_channel_available : ℤ → Upcall
  on_channel_error : ℤ → Ptr → Upcall
  on_channel_text_message on_channel_binary_message : ℤ → Option Ref → Upcall

-- The handlers that the code registers with the rtc library.
pub data Handler : Type 0 where
  handle_local_description handle_local_candidate handle_state_change : Handler
  handle_ice_state_change handle_gathering_state_change handle_signaling_state_change : Handler
  handle_data_channel handle_track handle_channel_open handle_channel_closed : Handler
  handle_channel_error handle_channel_message handle_channel_buffered_amount_low : Handler
  handle_channel_available : Handler

-- The functions of type `get_dynamic_string_func`.
pub data StringGetter : Type 0 where
  rtc_get_local_description rtc_get_local_description_type : StringGetter
  rtc_get_remote_description rtc_get_remote_description_type : StringGetter
  rtc_get_local_address rtc_get_remote_address : StringGetter
  rtc_get_data_channel_label rtc_get_data_channel_protocol : StringGetter
  rtc_get_track_description rtc_get_track_mid : StringGetter

-- The fields of rtc.h's structures that an integer is assigned to.
pub data RtcField : Type 0 where
  to_certificate_type to_ice_transport_policy to_port_range_begin to_port_range_end : RtcField
  to_mtu to_max_message_size : RtcField
  to_max_packet_life_time to_max_retransmits to_stream : RtcField

pub record RtcConfiguration : Type 0 where
  pub certificate_type : ℤ
  pub ice_transport_policy : ℤ
  pub enable_ice_tcp : Bool
  pub enable_ice_udp_mux : Bool
  pub disable_auto_negotiation : Bool
  pub force_media_transport : Bool
  pub port_range_begin : ℤ
  pub port_range_end : ℤ
  pub mtu : ℤ
  pub max_message_size : ℤ
  pub ice_servers : List (Option Ptr)
  pub ice_servers_count : ℤ
  pub proxy_server : Option Ptr
  pub bind_address : Option Ptr

pub record RtcReliability : Type 0 where
  pub unordered : Bool
  pub unreliable : Bool
  pub max_packet_life_time : ℤ
  pub max_retransmits : ℤ

pub record RtcDataChannelInit : Type 0 where
  pub reliability : RtcReliability
  pub protocol : Option Ptr
  pub negotiated : Bool
  pub stream : ℤ
  pub manual_stream : Bool

-- The functions of rtc.h that answer with an `int`.
pub data RtcCall : Type 0 where
  rtc_create_peer_connection : RtcConfiguration → RtcCall
  rtc_close_peer_connection rtc_delete_peer_connection : ℤ → RtcCall
  rtc_set_local_description : ℤ → Option Ptr → RtcCall
  rtc_set_remote_description : ℤ → Ptr → Option Ptr → RtcCall
  rtc_add_remote_candidate : ℤ → (candidate media_id : Option Ptr) → RtcCall
  rtc_get_string : StringGetter → ℤ → (buffer : Option Ptr) → (size : ℤ) → RtcCall
  rtc_get_selected_candidate_pair :
      ℤ → (local : Ptr) → (local_size : ℤ) → (remote : Ptr) → (remote_size : ℤ) → RtcCall
  rtc_set_callback : Handler → ℤ → (set : Bool) → RtcCall
  rtc_get_max_data_channel_stream rtc_get_remote_max_message_size : ℤ → RtcCall
  rtc_create_data_channel_ex : ℤ → Option Ptr → RtcDataChannelInit → RtcCall
  rtc_close rtc_delete_data_channel rtc_is_closed rtc_is_open rtc_max_message_size : ℤ → RtcCall
  rtc_set_buffered_amount_low_threshold : ℤ → ℤ → RtcCall
  rtc_send_message : ℤ → Ptr → ℤ → RtcCall
  rtc_receive_message : ℤ → (buffer : Option Ptr) → (size : ℤ) → RtcCall
  rtc_get_available_amount rtc_get_buffered_amount rtc_get_data_channel_stream : ℤ → RtcCall
  rtc_get_data_channel_reliability : ℤ → RtcCall
  rtc_add_track : ℤ → Option Ptr → RtcCall
  rtc_add_track_ex : ℤ → (direction codec : ℤ) → RtcCall
  rtc_get_track_direction rtc_delete_track : ℤ → RtcCall

-- The functions of mimalloc that answer with memory.
pub data MiCall : Type 0 where
  mi_malloc : (size : ℕ) → MiCall
  mi_calloc : (count size : ℕ) → MiCall
  mi_realloc : (memory : Option Ptr) → (size : ℕ) → MiCall
  mi_strdup : (text : Option Ptr) → MiCall
  mi_strndup : (text : Option Ptr) → (size : ℕ) → MiCall
  mi_aligned_alloc : (alignment size : ℕ) → MiCall

-- The locale, the format and the arguments that `vsnprintf_l` is given.
pub record Format : Type 0 where
  pub locale : ℕ
  pub format : Ptr
  pub arguments : ℕ

pub data Event : Type 0 where
  -- libc and the C++ runtime
  malloc : ℕ → Option Ptr → Event
  free : Option Ptr → Event
  -- mimalloc; `mi_posix_memalign` answers with a code and, through its argument, with memory
  mi : MiCall → Option Ptr → Event
  mi_posix_memalign : (alignment size : ℕ) → ℤ → Option Ptr → Event
  mi_free : Option Ptr → Event
  mi_version : ℕ → Event
  -- formatting, and `errno = ENOMEM`
  vsnprintf_l : (buffer : Option Ptr) → (size : ℕ) → Format → ℤ → Event
  snprintf : (buffer : Ptr) → (size : ℕ) → (format : String) → (numbers : List ℕ) → ℤ → Event
  set_errno_enomem : Event
  -- access to the members of a structure behind a pointer
  load store : Ptr → Event
  -- JNIEnv
  get_array_length : Ref → ℤ → Event
  get_object_array_element : Ref → ℕ → Option Ref → Event
  get_string_utf_chars : Ref → Option Ptr → Event
  release_string_utf_chars : Option Ref → Option Ptr → Event
  delete_local_ref : Option Ref → Event
  get_java_vm : ℤ → Option Ref → Event
  new_global_ref : Option Ref → Option Ref → Event
  delete_global_ref : Option Ref → Event
  new_string_utf : Ptr → Option Ref → Event
  new_string_of_block : Ptr → Option Ref → Event  -- NewStringUTF of memory that the code allocated
  new_direct_byte_buffer : Ptr → ℤ → Option Ref → Event
  get_direct_buffer_address : Ref → Option Ptr → Event
  get_direct_buffer_capacity : Ref → ℤ → Event
  -- JavaVM: the answers are JNI result codes
  vm_get_env vm_attach_current_thread_as_daemon : Ref → ℤ → Event
  vm_detach_current_thread : Ref → Event
  find_class : String → Option Ref → Event
  -- the generated wrappers that call into Java
  module_on_load module_on_unload : Option Ref → Event
  throw : Exception → Event
  upcall : Option Ref → Upcall → Event
  java_log : ℤ → Ptr → Event
  java_allocate : ℤ → Option Ref → Event
  parse_candidate_pair : Ptr → Ptr → Option Ref → Event
  create_reliability : RtcReliability → Option Ref → Event
  -- rtc
  rtc : RtcCall → ℤ → Event
  rtc_init_logger rtc_preload rtc_cleanup : Event
  rtc_set_thread_pool_size : ℕ → Event
  set_user_pointer : ℤ → Option Ptr → Event
  get_user_pointer : ℤ → Option Ptr → Event
  -- OpenSSL's allocation hooks
  crypto_get_mem_functions : Bool → Event
  crypto_set_mem_functions : ℤ → Event
  -- fiber-local storage of Windows
  fls_alloc : Option ℕ → Event
  fls_get_value : ℕ → Option Ptr → Event
  fls_set_value : ℕ → Option Ptr → Bool → Event
  fls_free : ℕ → Event
  get_current_thread_id : ℕ → Event

abbrev pub Trace : Type 0
Trace = List Event
