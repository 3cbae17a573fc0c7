-- ===== src/Api/Ownership.antt =====
-- The ledger of whole sessions: any requests, in any order, with any arguments.
use libdatachannel_java.Prelude.{refl, Bool, Option, List, [], ◌∷◌}
use libdatachannel_java.Prelude.Int.{ℤ}
use libdatachannel_java.Native.Event.{Ref}
use libdatachannel_java.Native.World.{M, World, Env, pure, ◌>>=◌}
use libdatachannel_java.Logic.Ledger.{Resource, local_ref, held, Safe}
use libdatachannel_java.Logic.Moves.{Owns, Moves, Moves-pure, Moves->>=, Safe-Owns, got}
use libdatachannel_java.Logic.Rules.{rtc-Moves}
use libdatachannel_java.Util.Ownership.{
  get_inner_allocator_native-Moves, wrap_error-Moves, get_dynamic_string-Moves,
}
use libdatachannel_java.Peer.Create.Ownership.{create_peer_connection-Moves}
use libdatachannel_java.Peer.Describe
use libdatachannel_java.Peer.Describe.Ownership.{
  set_local_description-Moves, set_remote_description-Moves, add_remote_candidate-Moves,
  get_selected_candidate_pair-Moves,
}
use libdatachannel_java.Peer.Listener
use libdatachannel_java.Peer.Handlers
use libdatachannel_java.Channel.Handlers as ChannelHandlers
use libdatachannel_java.Native.Event
use libdatachannel_java.Native.Event.{Handler}
use libdatachannel_java.Channel.Create.Ownership.{create_data_channel_ex-Moves}
use libdatachannel_java.Channel.Transfer.Ownership.{
  send_message-Moves, receive_message-Moves, receive_message_into-Moves,
}
use libdatachannel_java.Channel.Query
use libdatachannel_java.Channel.Query.Ownership.{get_data_channel_reliability-Moves}
use libdatachannel_java.Track
use libdatachannel_java.Track.Ownership.{add_track-Moves, get_track_direction-Moves}
use libdatachannel_java.Api.{
  Request, create_peer, close_peer, set_local, set_remote, add_candidate, local_description,
  local_description_type, remote_description, remote_description_type, local_address,
  inner_allocator, set_handler, remote_address, selected_candidate_pair, register, max_stream,
  remote_max_message_size, create_channel, close_channel, delete_channel, is_closed, is_open,
  max_message_size, low_threshold, send, receive, receive_into, available_amount, buffered_amount,
  stream, label, protocol, reliability, add_track, add_track_ex, track_description, track_direction,
  track_mid, delete_track, Reply, number, boolean, object, serve, serve_all,
}

-- A reply that is an object leaves its local reference to the caller.
abbrev pub keep : Reply → List Resource → List Resource
keep (number n) P = P
keep (boolean b) P = P
keep (object r) P = got local_ref r P

abbrev pub keep_all : List Reply → List Resource → List Resource
keep_all [] P = P
keep_all (r ∷ rs) P = keep_all rs (keep r P)

module _ {P : List Resource} where
  number-Moves :
      {m : M ℤ} → Moves P m (λ _. P) → Moves P (m >>= λ n. pure (number n)) (λ r. keep r P)
  number-Moves h = Moves->>= h λ n. Moves-pure (number n) refl

  boolean-Moves :
      {m : M Bool} → Moves P m (λ _. P) → Moves P (m >>= λ b. pure (boolean b)) (λ r. keep r P)
  boolean-Moves h = Moves->>= h λ b. Moves-pure (boolean b) refl

  object-Moves :
      {m : M (Option Ref)}
      → Moves P m (λ r. got local_ref r P)
      → Moves P (m >>= λ r. pure (object r)) (λ r. keep r P)
  object-Moves h = Moves->>= h λ r. Moves-pure (object r) refl

  set_handler-Moves :
      (h : Handler) (handle : ℤ) (set : Bool) → Moves P (set_handler h handle set) (λ _. P)
  unfolding set_handler Handlers.rtc_set_local_description_callback
      Handlers.rtc_set_local_candidate_callback Handlers.rtc_set_state_change_callback
      Handlers.rtc_set_ice_state_change_callback Handlers.rtc_set_gathering_state_change_callback
      Handlers.rtc_set_signaling_state_change_callback Handlers.rtc_set_data_channel_callback
      Handlers.rtc_set_track_callback ChannelHandlers.rtc_set_open_callback
      ChannelHandlers.rtc_set_closed_callback ChannelHandlers.rtc_set_error_callback
      ChannelHandlers.rtc_set_message_callback ChannelHandlers.rtc_set_buffered_amount_low_callback
      ChannelHandlers.rtc_set_available_callback Handlers.set_callback
  set_handler-Moves Event.handle_local_description handle set = rtc-Moves _ (λ t h. tt)
  set_handler-Moves Event.handle_local_candidate handle set = rtc-Moves _ (λ t h. tt)
  set_handler-Moves Event.handle_state_change handle set = rtc-Moves _ (λ t h. tt)
  set_handler-Moves Event.handle_ice_state_change handle set = rtc-Moves _ (λ t h. tt)
  set_handler-Moves Event.handle_gathering_state_change handle set = rtc-Moves _ (λ t h. tt)
  set_handler-Moves Event.handle_signaling_state_change handle set = rtc-Moves _ (λ t h. tt)
  set_handler-Moves Event.handle_data_channel handle set = rtc-Moves _ (λ t h. tt)
  set_handler-Moves Event.handle_track handle set = rtc-Moves _ (λ t h. tt)
  set_handler-Moves Event.handle_channel_open handle set = rtc-Moves _ (λ t h. tt)
  set_handler-Moves Event.handle_channel_closed handle set = rtc-Moves _ (λ t h. tt)
  set_handler-Moves Event.handle_channel_error handle set = rtc-Moves _ (λ t h. tt)
  set_handler-Moves Event.handle_channel_message handle set = rtc-Moves _ (λ t h. tt)
  set_handler-Moves Event.handle_channel_buffered_amount_low handle set = rtc-Moves _ (λ t h. tt)
  set_handler-Moves Event.handle_channel_available handle set = rtc-Moves _ (λ t h. tt)

  pub serve-Moves : (q : Request) → Moves P (serve q) (λ r. keep r P)
  unfolding serve Describe.get_local_description Describe.get_local_description_type
      Describe.get_remote_description Describe.get_remote_description_type
      Describe.get_local_address Describe.get_remote_address Listener.close_peer_connection
      Query.get_max_data_channel_stream Query.get_remote_max_message_size Query.close
      Query.delete_data_channel Query.is_closed Query.is_open Query.max_message_size
      Query.set_buffered_amount_low_threshold Query.get_available_amount Query.get_buffered_amount
      Query.get_data_channel_stream Query.get_data_channel_label Query.get_data_channel_protocol
      Track.add_track_ex Track.get_track_description Track.get_track_mid Track.delete_track
  serve-Moves (create_peer o proxy bind ice) =
      number-Moves (create_peer_connection-Moves o proxy bind ice)
  serve-Moves (close_peer peer) = number-Moves (rtc-Moves _ (λ t h. tt))
  serve-Moves (set_local peer type) = number-Moves (set_local_description-Moves peer type)
  serve-Moves (set_remote peer sdp type) = number-Moves (set_remote_description-Moves peer sdp type)
  serve-Moves (add_candidate peer c m) = number-Moves (add_remote_candidate-Moves peer c m)
  serve-Moves (local_description peer) = object-Moves (get_dynamic_string-Moves _ peer)
  serve-Moves (local_description_type peer) = object-Moves (get_dynamic_string-Moves _ peer)
  serve-Moves (remote_description peer) = object-Moves (get_dynamic_string-Moves _ peer)
  serve-Moves (remote_description_type peer) = object-Moves (get_dynamic_string-Moves _ peer)
  serve-Moves (local_address peer) = object-Moves (get_dynamic_string-Moves _ peer)
  serve-Moves (remote_address peer) = object-Moves (get_dynamic_string-Moves _ peer)
  serve-Moves (selected_candidate_pair peer) = object-Moves (get_selected_candidate_pair-Moves peer)
  serve-Moves (register h handle set) = number-Moves (set_handler-Moves h handle set)
  serve-Moves (max_stream peer) = number-Moves (rtc-Moves _ (λ t h. tt))
  serve-Moves (remote_max_message_size peer) = number-Moves (rtc-Moves _ (λ t h. tt))
  serve-Moves (create_channel peer o l p) = number-Moves (create_data_channel_ex-Moves peer o l p)
  serve-Moves (close_channel channel) = number-Moves (rtc-Moves _ (λ t h. tt))
  serve-Moves (delete_channel channel) = number-Moves (rtc-Moves _ (λ t h. tt))
  serve-Moves (is_closed channel) =
      boolean-Moves (Moves->>= (rtc-Moves _ (λ t h. tt)) λ n. Moves-pure _ refl)
  serve-Moves (is_open channel) =
      boolean-Moves (Moves->>= (rtc-Moves _ (λ t h. tt)) λ n. Moves-pure _ refl)
  serve-Moves (max_message_size channel) = number-Moves (rtc-Moves _ (λ t h. tt))
  serve-Moves (low_threshold channel amount) = number-Moves (rtc-Moves _ (λ t h. tt))
  serve-Moves (send channel b offset length) =
      number-Moves (send_message-Moves channel b offset length)
  serve-Moves (receive channel) = object-Moves (receive_message-Moves channel)
  serve-Moves (receive_into channel b offset capacity) =
      number-Moves (receive_message_into-Moves channel b offset capacity)
  serve-Moves (available_amount channel) =
      number-Moves (Moves->>= (rtc-Moves _ (λ t h. tt)) λ n. wrap_error-Moves _ n)
  serve-Moves (buffered_amount channel) =
      number-Moves (Moves->>= (rtc-Moves _ (λ t h. tt)) λ n. wrap_error-Moves _ n)
  serve-Moves (stream channel) =
      number-Moves (Moves->>= (rtc-Moves _ (λ t h. tt)) λ n. wrap_error-Moves _ n)
  serve-Moves (label channel) = object-Moves (get_dynamic_string-Moves _ channel)
  serve-Moves (protocol channel) = object-Moves (get_dynamic_string-Moves _ channel)
  serve-Moves (reliability channel) = object-Moves (get_data_channel_reliability-Moves channel)
  serve-Moves (add_track peer sdp) = number-Moves (add_track-Moves peer sdp)
  serve-Moves (add_track_ex peer d c) = number-Moves (rtc-Moves _ (λ t h. tt))
  serve-Moves (track_description track) = object-Moves (get_dynamic_string-Moves _ track)
  serve-Moves (track_direction track) = number-Moves (get_track_direction-Moves track)
  serve-Moves (track_mid track) = object-Moves (get_dynamic_string-Moves _ track)
  serve-Moves (delete_track track) = number-Moves (rtc-Moves _ (λ t h. tt))
  serve-Moves inner_allocator = object-Moves get_inner_allocator_native-Moves

pub serve_all-Moves :
    {P : List Resource} (qs : List Request) → Moves P (serve_all qs) (λ rs. keep_all rs P)
unfolding serve_all
serve_all-Moves [] = Moves-pure [] refl
serve_all-Moves {P} (q ∷ qs) =
    Moves->>= (serve-Moves q)
      λ r. Moves->>= (serve_all-Moves {P = keep r P} qs) λ rs. Moves-pure (r ∷ rs) refl

-- Java makes any requests (calls of the exported functions of LibDataChannelNative but
-- setupPeerConnectionListener and rtcDeletePeerConnection, and of getInnerAllocatorNative), one after
-- the other and with any arguments, where all calls made so far were allowed. Then, whatever the JVM,
-- the allocator and rtc answer, every call that the functions make is allowed: none frees or releases
-- what is not held; the blocks and the strings' characters that rtc, NewStringUTF or the parser of
-- candidate pairs are given are held; a message that rtc reads or writes lies in a direct buffer,
-- where a text is only known to start in one. And in the end the calls hold exactly what they held
-- before, and the local references of the objects that the functions returned.
pub serve_all-Owns :
    (qs : List Request) (env : Env) (w : World)
    → Safe w.trace
    → Owns (keep_all (serve_all qs env w).0 []) (held w.trace) (serve_all qs env w).1.trace
serve_all-Owns qs env w s = (serve_all-Moves qs).run env w (held w.trace) (Safe-Owns s)
