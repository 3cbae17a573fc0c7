-- ===== src/Api/Exceptions.antt =====
-- How many exceptions each request throws.
use libdatachannel_java.Prelude.{ℕ, ◌+◌, ◌≤◌, Bool, Option, arith}
use libdatachannel_java.Prelude.Int.{ℤ}
use libdatachannel_java.Native.Event
use libdatachannel_java.Native.Event.{Handler, Ptr, Ref}
use libdatachannel_java.Native.World.{M, World, Env, pure, ◌>>=◌}
use libdatachannel_java.Logic.Costs.{
  cost, Costs-pure, Costs-look, Costs-free->>=, Costs->>=-free, Costs->>-free,
}
use libdatachannel_java.Logic.Costs.Raises.{raises, Raises, rtc-Raises, create_reliability-Raises}
use libdatachannel_java.Util.Exceptions.{
  get_inner_allocator_native-Raises, wrap_error-Raises, get_dynamic_string-Raises,
}
use libdatachannel_java.Api.{
  Request, create_peer, close_peer, set_local, set_remote, add_candidate, local_description,
  local_description_type, remote_description, remote_description_type, local_address,
  inner_allocator, set_handler, remote_address, selected_candidate_pair, register, max_stream,
  remote_max_message_size, create_channel, close_channel, delete_channel, is_closed, is_open,
  max_message_size, low_threshold, send, receive, receive_into, available_amount, buffered_amount,
  stream, label, protocol, reliability, add_track, add_track_ex, track_description, track_direction,
  track_mid, delete_track, Reply, number, boolean, object, serve,
}
use libdatachannel_java.Peer.Create.Exceptions.{create_peer_connection-Raises}
use libdatachannel_java.Peer.Describe
use libdatachannel_java.Peer.Describe.Exceptions.{
  set_local_description-Raises, set_remote_description-Raises, add_remote_candidate-Raises,
  get_selected_candidate_pair-Raises,
}
use libdatachannel_java.Peer.Listener
use libdatachannel_java.Peer.Listener.Exceptions.{
  setup_peer_connection_listener-Raises, delete_peer_connection-Raises,
}
use libdatachannel_java.Peer.Handlers
use libdatachannel_java.Channel.Handlers as ChannelHandlers
use libdatachannel_java.Channel.Create.Exceptions.{create_data_channel_ex-Raises}
use libdatachannel_java.Channel.Transfer.Exceptions.{
  send_message-Raises, receive_message-Raises, receive_message_into-Raises,
}
use libdatachannel_java.Channel.Query
use libdatachannel_java.Track
use libdatachannel_java.Track.Exceptions.{add_track-Raises, get_track_direction-Raises}

-- None where rtc's answer is passed on as it is, and for getInnerAllocatorNative; two where
-- rtcReceiveMessage goes on after an error; and else one.
abbrev pub limit : Request → ℕ
limit (close_peer peer) = 0
limit (register h handle set) = 0
limit (max_stream peer) = 0
limit (remote_max_message_size peer) = 0
limit (close_channel channel) = 0
limit (delete_channel channel) = 0
limit (is_closed channel) = 0
limit (is_open channel) = 0
limit (max_message_size channel) = 0
limit (low_threshold channel amount) = 0
limit (add_track_ex peer d c) = 0
limit (delete_track track) = 0
limit inner_allocator = 0
limit (receive channel) = 2
limit q = 1

returns-Raises :
    {A : Type 0} {env : Env} {k : ℕ} (f : A → Reply) {m : M A}
    → Raises k env m
    → Raises k env (m >>= λ a. pure (f a))
returns-Raises f h = Costs->>=-free h λ a. Costs-pure (f a)

set_handler-Raises :
    {env : Env} (h : Handler) (handle : ℤ) (set : Bool) → Raises 0 env (set_handler h handle set)
unfolding set_handler Handlers.rtc_set_local_description_callback
    Handlers.rtc_set_local_candidate_callback Handlers.rtc_set_state_change_callback
    Handlers.rtc_set_ice_state_change_callback Handlers.rtc_set_gathering_state_change_callback
    Handlers.rtc_set_signaling_state_change_callback Handlers.rtc_set_data_channel_callback
    Handlers.rtc_set_track_callback ChannelHandlers.rtc_set_open_callback
    ChannelHandlers.rtc_set_closed_callback ChannelHandlers.rtc_set_error_callback
    ChannelHandlers.rtc_set_message_callback ChannelHandlers.rtc_set_buffered_amount_low_callback
    ChannelHandlers.rtc_set_available_callback Handlers.set_callback
set_handler-Raises Event.handle_local_description handle set = rtc-Raises _
set_handler-Raises Event.handle_local_candidate handle set = rtc-Raises _
set_handler-Raises Event.handle_state_change handle set = rtc-Raises _
set_handler-Raises Event.handle_ice_state_change handle set = rtc-Raises _
set_handler-Raises Event.handle_gathering_state_change handle set = rtc-Raises _
set_handler-Raises Event.handle_signaling_state_change handle set = rtc-Raises _
set_handler-Raises Event.handle_data_channel handle set = rtc-Raises _
set_handler-Raises Event.handle_track handle set = rtc-Raises _
set_handler-Raises Event.handle_channel_open handle set = rtc-Raises _
set_handler-Raises Event.handle_channel_closed handle set = rtc-Raises _
set_handler-Raises Event.handle_channel_error handle set = rtc-Raises _
set_handler-Raises Event.handle_channel_message handle set = rtc-Raises _
set_handler-Raises Event.handle_channel_buffered_amount_low handle set = rtc-Raises _
set_handler-Raises Event.handle_channel_available handle set = rtc-Raises _

reliability-Raises :
    {env : Env} (channel : ℤ) → Raises 1 env (Query.get_data_channel_reliability channel)
unfolding Query.get_data_channel_reliability
reliability-Raises channel = Costs-free->>= (rtc-Raises _) λ n.
    Costs->>-free (wrap_error-Raises _ n)
      (Costs-free->>= (Costs-look _) λ r. create_reliability-Raises r)

serve-Raises : {env : Env} (q : Request) → Raises (limit q) env (serve q)
unfolding serve Describe.get_local_description Describe.get_local_description_type
    Describe.get_remote_description Describe.get_remote_description_type Describe.get_local_address
    Describe.get_remote_address Listener.close_peer_connection Query.get_max_data_channel_stream
    Query.get_remote_max_message_size Query.close Query.delete_data_channel Query.is_closed
    Query.is_open Query.max_message_size Query.set_buffered_amount_low_threshold
    Query.get_available_amount Query.get_buffered_amount Query.get_data_channel_stream
    Query.get_data_channel_label Query.get_data_channel_protocol Track.add_track_ex
    Track.get_track_description Track.get_track_mid Track.delete_track
serve-Raises (create_peer o proxy bind ice) =
    returns-Raises number (create_peer_connection-Raises o proxy bind ice)
serve-Raises (close_peer peer) = returns-Raises number (rtc-Raises _)
serve-Raises (set_local peer type) = returns-Raises number (set_local_description-Raises peer type)
serve-Raises (set_remote peer sdp type) =
    returns-Raises number (set_remote_description-Raises peer sdp type)
serve-Raises (add_candidate peer c m) = returns-Raises number (add_remote_candidate-Raises peer c m)
serve-Raises (local_description peer) = returns-Raises object (get_dynamic_string-Raises _ peer)
serve-Raises (local_description_type peer) =
    returns-Raises object (get_dynamic_string-Raises _ peer)
serve-Raises (remote_description peer) = returns-Raises object (get_dynamic_string-Raises _ peer)
serve-Raises (remote_description_type peer) =
    returns-Raises object (get_dynamic_string-Raises _ peer)
serve-Raises (local_address peer) = returns-Raises object (get_dynamic_string-Raises _ peer)
serve-Raises (remote_address peer) = returns-Raises object (get_dynamic_string-Raises _ peer)
serve-Raises (selected_candidate_pair peer) =
    returns-Raises object (get_selected_candidate_pair-Raises peer)
serve-Raises (register h handle set) = returns-Raises number (set_handler-Raises h handle set)
serve-Raises (max_stream peer) = returns-Raises number (rtc-Raises _)
serve-Raises (remote_max_message_size peer) = returns-Raises number (rtc-Raises _)
serve-Raises (create_channel peer o l p) =
    returns-Raises number (create_data_channel_ex-Raises peer o l p)
serve-Raises (close_channel channel) = returns-Raises number (rtc-Raises _)
serve-Raises (delete_channel channel) = returns-Raises number (rtc-Raises _)
serve-Raises (is_closed channel) =
    returns-Raises boolean (Costs-free->>= (rtc-Raises _) λ n. Costs-pure _)
serve-Raises (is_open channel) =
    returns-Raises boolean (Costs-free->>= (rtc-Raises _) λ n. Costs-pure _)
serve-Raises (max_message_size channel) = returns-Raises number (rtc-Raises _)
serve-Raises (low_threshold channel amount) = returns-Raises number (rtc-Raises _)
serve-Raises (send channel b offset length) =
    returns-Raises number (send_message-Raises channel b offset length)
serve-Raises (receive channel) = returns-Raises object (receive_message-Raises channel)
serve-Raises (receive_into channel b offset capacity) =
    returns-Raises number (receive_message_into-Raises channel b offset capacity)
serve-Raises (available_amount channel) =
    returns-Raises number (Costs-free->>= (rtc-Raises _) λ n. wrap_error-Raises _ n)
serve-Raises (buffered_amount channel) =
    returns-Raises number (Costs-free->>= (rtc-Raises _) λ n. wrap_error-Raises _ n)
serve-Raises (stream channel) =
    returns-Raises number (Costs-free->>= (rtc-Raises _) λ n. wrap_error-Raises _ n)
serve-Raises (label channel) = returns-Raises object (get_dynamic_string-Raises _ channel)
serve-Raises (protocol channel) = returns-Raises object (get_dynamic_string-Raises _ channel)
serve-Raises (reliability channel) = returns-Raises object (reliability-Raises channel)
serve-Raises (add_track peer sdp) = returns-Raises number (add_track-Raises peer sdp)
serve-Raises (add_track_ex peer d c) = returns-Raises number (rtc-Raises _)
serve-Raises (track_description track) = returns-Raises object (get_dynamic_string-Raises _ track)
serve-Raises (track_direction track) = returns-Raises number (get_track_direction-Raises track)
serve-Raises (track_mid track) = returns-Raises object (get_dynamic_string-Raises _ track)
serve-Raises (delete_track track) = returns-Raises number (rtc-Raises _)
serve-Raises inner_allocator = returns-Raises object get_inner_allocator_native-Raises

none_more : (a b : ℕ) → a ≤ 0 + b → a ≤ b
none_more a b h = omega arith

-- In any environment and from any state, a request throws at most as many exceptions as its limit:
-- none for those that only pass on a call of rtc and its answer and for getInnerAllocatorNative, two
-- for rtcReceiveMessage, which does not stop when rtc refuses its first call, and one for every other.
-- setupPeerConnectionListener throws at most two, since it throws again after allocate_callback has,
-- and rtcDeletePeerConnection throws none.
pub serve-limit :
    (q : Request) (peer : ℤ) (listener : Option Ref) (env : Env) (w : World)
    → (cost raises (serve q env w).1.trace ≤ limit q + cost raises w.trace)
      × (cost raises (Listener.setup_peer_connection_listener peer listener env w).1.trace
          ≤ 2 + cost raises w.trace)
      × (cost raises (Listener.delete_peer_connection peer env w).1.trace ≤ cost raises w.trace)
serve-limit q peer listener env w = (
  (serve-Raises q).within w,
  (setup_peer_connection_listener-Raises peer listener).within w,
  none_more _ _ ((delete_peer_connection-Raises peer).within w),
)
