-- ===== src/Api/Quiet.antt =====
-- The listeners and user pointers under any requests.
use libdatachannel_java.Prelude.{Bool, ◌≡◌, true, false, List, [], ◌∷◌}
use libdatachannel_java.Prelude.Int.{ℤ, int_eq}
use libdatachannel_java.Native.Event.{RtcCall, Trace}
use libdatachannel_java.Native.World.{M, World, Env, pure, ◌>>=◌}
use libdatachannel_java.Logic.Stays.{
  linked, opens, Stays, Stays-pure, Stays->>=, Stays->>, Stays-look, rtc-Stays,
  create_reliability-Stays,
}
use libdatachannel_java.Util.Quiet.{
  get_inner_allocator_native-Stays, wrap_error-Stays, get_dynamic_string-Stays,
}
use libdatachannel_java.Api.{
  Request, create_peer, close_peer, set_local, set_remote, add_candidate, local_description,
  local_description_type, remote_description, remote_description_type, local_address,
  inner_allocator, set_handler, remote_address, selected_candidate_pair, register, max_stream,
  remote_max_message_size, create_channel, close_channel, delete_channel, is_closed, is_open,
  max_message_size, low_threshold, send, receive, receive_into, available_amount, buffered_amount,
  stream, label, protocol, reliability, add_track, add_track_ex, track_description, track_direction,
  track_mid, delete_track, Reply, number, boolean, object, serve, serve_all,
}
use libdatachannel_java.Peer.Create.Quiet.{create_peer_connection-Stays}
use libdatachannel_java.Peer.Describe
use libdatachannel_java.Peer.Describe.Quiet.{
  set_local_description-Stays, set_remote_description-Stays, add_remote_candidate-Stays,
  get_selected_candidate_pair-Stays,
}
use libdatachannel_java.Peer.Listener
use libdatachannel_java.Peer.Handlers
use libdatachannel_java.Channel.Handlers as ChannelHandlers
use libdatachannel_java.Native.Event
use libdatachannel_java.Native.Event.{Handler}
use libdatachannel_java.Channel.Create.Quiet.{create_data_channel_ex-Stays}
use libdatachannel_java.Channel.Transfer.Quiet.{
  send_message-Stays, receive_message-Stays, receive_message_into-Stays,
}
use libdatachannel_java.Channel.Query
use libdatachannel_java.Track
use libdatachannel_java.Track.Quiet.{add_track-Stays, get_track_direction-Stays}

returns-Stays :
    {A : Type 0} {env : Env} {peer : ℤ} (f : A → Reply) {m : M A}
    → Stays env peer m
    → Stays env peer (m >>= λ a. pure (f a))
returns-Stays f h = Stays->>= h λ a. Stays-pure (f a)

set_handler-Stays :
    {env : Env} {peer : ℤ} (h : Handler) (handle : ℤ) (set : Bool)
    → Stays env peer (set_handler h handle set)
unfolding set_handler Handlers.rtc_set_local_description_callback
    Handlers.rtc_set_local_candidate_callback Handlers.rtc_set_state_change_callback
    Handlers.rtc_set_ice_state_change_callback Handlers.rtc_set_gathering_state_change_callback
    Handlers.rtc_set_signaling_state_change_callback Handlers.rtc_set_data_channel_callback
    Handlers.rtc_set_track_callback ChannelHandlers.rtc_set_open_callback
    ChannelHandlers.rtc_set_closed_callback ChannelHandlers.rtc_set_error_callback
    ChannelHandlers.rtc_set_message_callback ChannelHandlers.rtc_set_buffered_amount_low_callback
    ChannelHandlers.rtc_set_available_callback Handlers.set_callback
set_handler-Stays Event.handle_local_description handle set = rtc-Stays _
set_handler-Stays Event.handle_local_candidate handle set = rtc-Stays _
set_handler-Stays Event.handle_state_change handle set = rtc-Stays _
set_handler-Stays Event.handle_ice_state_change handle set = rtc-Stays _
set_handler-Stays Event.handle_gathering_state_change handle set = rtc-Stays _
set_handler-Stays Event.handle_signaling_state_change handle set = rtc-Stays _
set_handler-Stays Event.handle_data_channel handle set = rtc-Stays _
set_handler-Stays Event.handle_track handle set = rtc-Stays _
set_handler-Stays Event.handle_channel_open handle set = rtc-Stays _
set_handler-Stays Event.handle_channel_closed handle set = rtc-Stays _
set_handler-Stays Event.handle_channel_error handle set = rtc-Stays _
set_handler-Stays Event.handle_channel_message handle set = rtc-Stays _
set_handler-Stays Event.handle_channel_buffered_amount_low handle set = rtc-Stays _
set_handler-Stays Event.handle_channel_available handle set = rtc-Stays _

reliability-Stays :
    {env : Env} {peer : ℤ} (channel : ℤ)
    → Stays env peer (Query.get_data_channel_reliability channel)
unfolding Query.get_data_channel_reliability
reliability-Stays channel =
    Stays->>= (rtc-Stays _) λ n.
      Stays->> (wrap_error-Stays _ n) (Stays->>= (Stays-look _) λ r. create_reliability-Stays r)

module _ {env : Env} {peer : ℤ}
    (distinct : (t : Trace) (c : RtcCall)
      → opens c ≡ true
      → int_eq (env.rtc t c) peer ≡ false) where
  pub serve-Stays : (q : Request) → Stays env peer (serve q)
  unfolding serve Describe.get_local_description Describe.get_local_description_type
      Describe.get_remote_description Describe.get_remote_description_type
      Describe.get_local_address Describe.get_remote_address Listener.close_peer_connection
      Query.get_max_data_channel_stream Query.get_remote_max_message_size Query.close
      Query.delete_data_channel Query.is_closed Query.is_open Query.max_message_size
      Query.set_buffered_amount_low_threshold Query.get_available_amount Query.get_buffered_amount
      Query.get_data_channel_stream Query.get_data_channel_label Query.get_data_channel_protocol
      Track.add_track_ex Track.get_track_description Track.get_track_mid Track.delete_track
  serve-Stays (create_peer o proxy bind ice) =
      returns-Stays number (create_peer_connection-Stays o proxy bind ice)
  serve-Stays (close_peer peer) = returns-Stays number (rtc-Stays _)
  serve-Stays (set_local peer type) = returns-Stays number (set_local_description-Stays peer type)
  serve-Stays (set_remote peer sdp type) =
      returns-Stays number (set_remote_description-Stays peer sdp type)
  serve-Stays (add_candidate peer c m) = returns-Stays number (add_remote_candidate-Stays peer c m)
  serve-Stays (local_description peer) = returns-Stays object (get_dynamic_string-Stays _ peer)
  serve-Stays (local_description_type peer) = returns-Stays object (get_dynamic_string-Stays _ peer)
  serve-Stays (remote_description peer) = returns-Stays object (get_dynamic_string-Stays _ peer)
  serve-Stays (remote_description_type peer) =
      returns-Stays object (get_dynamic_string-Stays _ peer)
  serve-Stays (local_address peer) = returns-Stays object (get_dynamic_string-Stays _ peer)
  serve-Stays (remote_address peer) = returns-Stays object (get_dynamic_string-Stays _ peer)
  serve-Stays (selected_candidate_pair peer) =
      returns-Stays object (get_selected_candidate_pair-Stays peer)
  serve-Stays (register h handle set) = returns-Stays number (set_handler-Stays h handle set)
  serve-Stays (max_stream peer) = returns-Stays number (rtc-Stays _)
  serve-Stays (remote_max_message_size peer) = returns-Stays number (rtc-Stays _)
  serve-Stays (create_channel peer o l p) =
      returns-Stays number (create_data_channel_ex-Stays distinct peer o l p)
  serve-Stays (close_channel channel) = returns-Stays number (rtc-Stays _)
  serve-Stays (delete_channel channel) = returns-Stays number (rtc-Stays _)
  serve-Stays (is_closed channel) =
      returns-Stays boolean (Stays->>= (rtc-Stays _) λ n. Stays-pure _)
  serve-Stays (is_open channel) = returns-Stays boolean (Stays->>= (rtc-Stays _) λ n. Stays-pure _)
  serve-Stays (max_message_size channel) = returns-Stays number (rtc-Stays _)
  serve-Stays (low_threshold channel amount) = returns-Stays number (rtc-Stays _)
  serve-Stays (send channel b offset length) =
      returns-Stays number (send_message-Stays channel b offset length)
  serve-Stays (receive channel) = returns-Stays object (receive_message-Stays channel)
  serve-Stays (receive_into channel b offset capacity) =
      returns-Stays number (receive_message_into-Stays channel b offset capacity)
  serve-Stays (available_amount channel) =
      returns-Stays number (Stays->>= (rtc-Stays _) λ n. wrap_error-Stays _ n)
  serve-Stays (buffered_amount channel) =
      returns-Stays number (Stays->>= (rtc-Stays _) λ n. wrap_error-Stays _ n)
  serve-Stays (stream channel) =
      returns-Stays number (Stays->>= (rtc-Stays _) λ n. wrap_error-Stays _ n)
  serve-Stays (label channel) = returns-Stays object (get_dynamic_string-Stays _ channel)
  serve-Stays (protocol channel) = returns-Stays object (get_dynamic_string-Stays _ channel)
  serve-Stays (reliability channel) = returns-Stays object (reliability-Stays channel)
  serve-Stays (add_track peer sdp) = returns-Stays number (add_track-Stays distinct peer sdp)
  serve-Stays (add_track_ex peer d c) = returns-Stays number (rtc-Stays _)
  serve-Stays (track_description track) = returns-Stays object (get_dynamic_string-Stays _ track)
  serve-Stays (track_direction track) = returns-Stays number (get_track_direction-Stays track)
  serve-Stays (track_mid track) = returns-Stays object (get_dynamic_string-Stays _ track)
  serve-Stays (delete_track track) = returns-Stays number (rtc-Stays _)
  serve-Stays inner_allocator = returns-Stays object get_inner_allocator_native-Stays

  pub serve_all-Stays : (qs : List Request) → Stays env peer (serve_all qs)
  unfolding serve_all
  serve_all-Stays [] = Stays-pure []
  serve_all-Stays (q ∷ qs) =
      Stays->>= (serve-Stays q) λ r. Stays->>= (serve_all-Stays qs) λ rs. Stays-pure (r ∷ rs)

-- No new data channel or track has the peer's handle. Then no requests, for any handles, call a
-- listener, change a listener's structure, or change the user pointer that was set for the peer.
pub linked-serve_all :
    (peer : ℤ) (qs : List Request) (env : Env) (w : World)
    → ((t : Trace) (c : RtcCall) → opens c ≡ true → int_eq (env.rtc t c) peer ≡ false)
    → linked peer (serve_all qs env w).1 ≡ linked peer w
linked-serve_all peer qs env w distinct = (serve_all-Stays distinct qs).stays w
