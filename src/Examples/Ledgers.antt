-- ===== src/Examples/Ledgers.antt =====
-- Sessions, strings, messages and errors on the concrete machine.
use libdatachannel_java.Prelude.{true, false, none, some, List, [], ◌∷◌}
use libdatachannel_java.Prelude.Int.{pos, negsuc}
use libdatachannel_java.Native.Event.{rtc_get_data_channel_label}
use libdatachannel_java.Logic.Ledger.{held}
use libdatachannel_java.Logic.Moves.{Owns}
use libdatachannel_java.Util.{wrap_error, get_dynamic_string}
use libdatachannel_java.Util.Errors.{Wrapped, wrap_error-Wrapped}
use libdatachannel_java.Util.Fetch.{Fetched, get_dynamic_string-Fetched}
use libdatachannel_java.Peer.Create.{PeerOptions, create_peer_connection}
use libdatachannel_java.Peer.Create.Ownership.{create_peer_connection-Owns}
use libdatachannel_java.Peer.Create.Arguments.{Created, create_peer_connection-Created}
use libdatachannel_java.Logic.Story.{story}
use libdatachannel_java.Channel.Transfer.{receive_message_into}
use libdatachannel_java.Channel.Transfer.Bounds.{InBounds, receive_message_into-InBounds}
use libdatachannel_java.Api.{Request, create_peer, label, receive, send, serve_all}
use libdatachannel_java.Api.Ownership.{keep_all, serve_all-Owns}
use libdatachannel_java.Examples.{machine, start}

abbrev pub options : PeerOptions
options = record {
  certificate_type = pos 0;
  ice_transport_policy = pos 0;
  enable_ice_tcp = true;
  enable_ice_udp_mux = false;
  disable_auto_negotiation = false;
  force_media_transport = false;
  port_range_begin = pos 1024;
  port_range_end = pos 2048;
  mtu = pos 1200;
  max_message_size = pos 0;
}

abbrev session : List Request
session =
    create_peer options (some 5) none (some 6)
    ∷ label (pos 2)
    ∷ send (pos 2) (some 7) (pos 8) (pos 16)
    ∷ receive (pos 2)
    ∷ []

serve_all-Owns_example :
    Owns
      (keep_all (serve_all session machine start).0 [])
      (held start.trace)
      (serve_all session machine start).1.trace
serve_all-Owns_example = serve_all-Owns session machine start tt

create_peer_connection-Owns_example :
    Owns []
      (held start.trace)
      (create_peer_connection options (some 5) (some 8) (some 6) machine start).1.trace
create_peer_connection-Owns_example =
    create_peer_connection-Owns options (some 5) (some 8) (some 6) machine start tt

receive_message_into-InBounds_example :
    InBounds (receive_message_into (pos 2) (some 7) (pos 8) (pos 56) machine start).1.trace
receive_message_into-InBounds_example =
    receive_message_into-InBounds (pos 2) (pos 8) (pos 56) machine start (some 7) tt

wrap_error-Wrapped_example :
    Wrapped "Failed to receive message"
      (negsuc 2)
      start
      (wrap_error "Failed to receive message" (negsuc 2) machine start)
wrap_error-Wrapped_example = wrap_error-Wrapped "Failed to receive message" (negsuc 2) machine start

create_peer_connection-Created_example :
    Created machine.to_field options
      (some 6)
      (some 5)
      (some 8)
      (story start)
      (create_peer_connection options (some 5) (some 8) (some 6) machine start)
create_peer_connection-Created_example =
    create_peer_connection-Created options (some 6) (some 5) (some 8) machine start

get_dynamic_string-Fetched_example :
    Fetched rtc_get_data_channel_label
      (pos 2)
      start.trace
      (get_dynamic_string rtc_get_data_channel_label (pos 2) machine start)
get_dynamic_string-Fetched_example =
    get_dynamic_string-Fetched rtc_get_data_channel_label (pos 2) machine start
