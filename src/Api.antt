-- ===== src/Api.antt =====
-- The two sides of the library: what Java may call (the exported functions of
-- jni/src/native_peer.c, native_channel.c and native_track.c but those of the listener's life, and
-- getInnerAllocatorNative of jni/src/util.c), and what rtc may call back.
pub mod Arguments
pub mod Delivery
pub mod Exceptions
pub mod Interleaving
pub mod Ownership
pub mod Progress
pub mod Quiet
pub mod Sessions
use libdatachannel_java.Prelude.{Bool, Option, List, [], ◌∷◌}
use libdatachannel_java.Prelude.Int.{ℤ}
use libdatachannel_java.Native.Event.{Ptr, Ref, Handler}
use libdatachannel_java.Native.World.{M, pure, ◌>>=◌}
use libdatachannel_java.Peer.Create.{PeerOptions, create_peer_connection}
use libdatachannel_java.Peer.Describe
use libdatachannel_java.Peer.Listener
use libdatachannel_java.Peer.Handlers
use libdatachannel_java.Channel.Create.{ChannelOptions, create_data_channel_ex}
use libdatachannel_java.Channel.Transfer
use libdatachannel_java.Channel.Query
use libdatachannel_java.Channel.Handlers as ChannelHandlers
use libdatachannel_java.Track
use libdatachannel_java.Util
use libdatachannel_java.Native.Event

-- A call of an exported function of LibDataChannelNative (native_peer.c, native_channel.c,
-- native_track.c) but setupPeerConnectionListener and rtcDeletePeerConnection, or of
-- getInnerAllocatorNative, with its arguments. freeMemory and initializeNative of LibDataChannel are
-- not among them.
pub data Request : Type 0 where
  create_peer : PeerOptions → (proxy bind ice_servers : Option Ref) → Request
  close_peer : (peer : ℤ) → Request
  set_local : (peer : ℤ) → (type : Option Ref) → Request
  set_remote : (peer : ℤ) → (sdp type : Option Ref) → Request
  add_candidate : (peer : ℤ) → (candidate media_id : Option Ref) → Request
  local_description local_description_type remote_description : (peer : ℤ) → Request
  remote_description_type local_address remote_address : (peer : ℤ) → Request
  selected_candidate_pair : (peer : ℤ) → Request
  register : Handler → (handle : ℤ) → (set : Bool) → Request
  max_stream remote_max_message_size : (peer : ℤ) → Request
  create_channel : (peer : ℤ) → ChannelOptions → (label protocol : Option Ref) → Request
  close_channel delete_channel is_closed is_open max_message_size : (channel : ℤ) → Request
  low_threshold : (channel amount : ℤ) → Request
  send : (channel : ℤ) → Option Ref → (offset length : ℤ) → Request
  receive : (channel : ℤ) → Request
  receive_into : (channel : ℤ) → Option Ref → (offset capacity : ℤ) → Request
  available_amount buffered_amount stream label protocol : (channel : ℤ) → Request
  reliability : (channel : ℤ) → Request
  add_track : (peer : ℤ) → (sdp : Option Ref) → Request
  add_track_ex : (peer direction codec : ℤ) → Request
  track_description track_direction track_mid delete_track : (track : ℤ) → Request
  inner_allocator : Request

pub data Reply : Type 0 where
  number : ℤ → Reply
  boolean : Bool → Reply
  object : Option Ref → Reply

abbrev returns_number : M ℤ → M Reply
returns_number m = m >>= λ n. pure (number n)

abbrev returns_boolean : M Bool → M Reply
returns_boolean m = m >>= λ b. pure (boolean b)

abbrev returns_object : M (Option Ref) → M Reply
returns_object m = m >>= λ r. pure (object r)

-- The exported function that registers a handler.
unfoldable pub set_handler : Handler → ℤ → Bool → M ℤ
set_handler Event.handle_local_description = Handlers.rtc_set_local_description_callback
set_handler Event.handle_local_candidate = Handlers.rtc_set_local_candidate_callback
set_handler Event.handle_state_change = Handlers.rtc_set_state_change_callback
set_handler Event.handle_ice_state_change = Handlers.rtc_set_ice_state_change_callback
set_handler Event.handle_gathering_state_change = Handlers.rtc_set_gathering_state_change_callback
set_handler Event.handle_signaling_state_change = Handlers.rtc_set_signaling_state_change_callback
set_handler Event.handle_data_channel = Handlers.rtc_set_data_channel_callback
set_handler Event.handle_track = Handlers.rtc_set_track_callback
set_handler Event.handle_channel_open = ChannelHandlers.rtc_set_open_callback
set_handler Event.handle_channel_closed = ChannelHandlers.rtc_set_closed_callback
set_handler Event.handle_channel_error = ChannelHandlers.rtc_set_error_callback
set_handler Event.handle_channel_message = ChannelHandlers.rtc_set_message_callback
set_handler Event.handle_channel_buffered_amount_low =
    ChannelHandlers.rtc_set_buffered_amount_low_callback
set_handler Event.handle_channel_available = ChannelHandlers.rtc_set_available_callback

unfoldable pub serve : Request → M Reply
serve (create_peer o proxy bind ice) = returns_number (create_peer_connection o proxy bind ice)
serve (close_peer peer) = returns_number (Listener.close_peer_connection peer)
serve (set_local peer type) = returns_number (Describe.set_local_description peer type)
serve (set_remote peer sdp type) = returns_number (Describe.set_remote_description peer sdp type)
serve (add_candidate peer c m) = returns_number (Describe.add_remote_candidate peer c m)
serve (local_description peer) = returns_object (Describe.get_local_description peer)
serve (local_description_type peer) = returns_object (Describe.get_local_description_type peer)
serve (remote_description peer) = returns_object (Describe.get_remote_description peer)
serve (remote_description_type peer) = returns_object (Describe.get_remote_description_type peer)
serve (local_address peer) = returns_object (Describe.get_local_address peer)
serve (remote_address peer) = returns_object (Describe.get_remote_address peer)
serve (selected_candidate_pair peer) = returns_object (Describe.get_selected_candidate_pair peer)
serve (register h handle set) = returns_number (set_handler h handle set)
serve (max_stream peer) = returns_number (Query.get_max_data_channel_stream peer)
serve (remote_max_message_size peer) = returns_number (Query.get_remote_max_message_size peer)
serve (create_channel peer o l p) = returns_number (create_data_channel_ex peer o l p)
serve (close_channel channel) = returns_number (Query.close channel)
serve (delete_channel channel) = returns_number (Query.delete_data_channel channel)
serve (is_closed channel) = returns_boolean (Query.is_closed channel)
serve (is_open channel) = returns_boolean (Query.is_open channel)
serve (max_message_size channel) = returns_number (Query.max_message_size channel)
serve (low_threshold channel amount) =
    returns_number (Query.set_buffered_amount_low_threshold channel amount)
serve (send channel b offset length) =
    returns_number (Transfer.send_message channel b offset length)
serve (receive channel) = returns_object (Transfer.receive_message channel)
serve (receive_into channel b offset capacity) =
    returns_number (Transfer.receive_message_into channel b offset capacity)
serve (available_amount channel) = returns_number (Query.get_available_amount channel)
serve (buffered_amount channel) = returns_number (Query.get_buffered_amount channel)
serve (stream channel) = returns_number (Query.get_data_channel_stream channel)
serve (label channel) = returns_object (Query.get_data_channel_label channel)
serve (protocol channel) = returns_object (Query.get_data_channel_protocol channel)
serve (reliability channel) = returns_object (Query.get_data_channel_reliability channel)
serve (add_track peer sdp) = returns_number (Track.add_track peer sdp)
serve (add_track_ex peer d c) = returns_number (Track.add_track_ex peer d c)
serve (track_description track) = returns_object (Track.get_track_description track)
serve (track_direction track) = returns_number (Track.get_track_direction track)
serve (track_mid track) = returns_object (Track.get_track_mid track)
serve (delete_track track) = returns_number (Track.delete_track track)
serve inner_allocator = returns_object Util.get_inner_allocator_native

-- A session: requests one after the other.
unfoldable pub serve_all : List Request → M (List Reply)
serve_all [] = pure []
serve_all (q ∷ qs) = serve q >>= λ r. serve_all qs >>= λ rs. pure (r ∷ rs)

-- The calls of rtc into the library, without the user pointer.
pub data Notification : Type 0 where
  local_description_ready local_candidate_ready : (a b : Ptr) → Notification
  state_changed ice_state_changed gathering_state_changed : ℤ → Notification
  signaling_state_changed data_channel_opened track_opened : ℤ → Notification
  channel_opened channel_closed channel_low channel_readable : ℤ → Notification
  channel_failed : ℤ → Ptr → Notification
  channel_message : ℤ → Ptr → (size : ℤ) → Notification

unfoldable pub notify : Notification → Option Ptr → M (Unit {0})
notify (local_description_ready sdp type) ptr = Handlers.handle_local_description sdp type ptr
notify (local_candidate_ready c m) ptr = Handlers.handle_local_candidate c m ptr
notify (state_changed s) ptr = Handlers.handle_state_change s ptr
notify (ice_state_changed s) ptr = Handlers.handle_ice_state_change s ptr
notify (gathering_state_changed s) ptr = Handlers.handle_gathering_state_change s ptr
notify (signaling_state_changed s) ptr = Handlers.handle_signaling_state_change s ptr
notify (data_channel_opened c) ptr = Handlers.handle_data_channel c ptr
notify (track_opened t) ptr = Handlers.handle_track t ptr
notify (channel_opened c) ptr = ChannelHandlers.handle_channel_open c ptr
notify (channel_closed c) ptr = ChannelHandlers.handle_channel_closed c ptr
notify (channel_low c) ptr = ChannelHandlers.handle_channel_buffered_amount_low c ptr
notify (channel_readable c) ptr = ChannelHandlers.handle_channel_available c ptr
notify (channel_failed c e) ptr = ChannelHandlers.handle_channel_error c e ptr
notify (channel_message c m size) ptr = ChannelHandlers.handle_channel_message c m size ptr
