-- ===== src/Examples/Limits.antt =====
-- Bounds on what requests do.
use libdatachannel_java.Prelude.{◌+◌, ◌*◌, ◌≤◌, ◌≡◌, refl, none, some, length, arith}
use libdatachannel_java.Prelude.Int.{pos, negsuc}
use libdatachannel_java.Native.Calls
use libdatachannel_java.Native.World.{
  Env, pure, ◌>>=◌, ◌>>◌, when◌then◌else◌, ask, emit, look, read,
}
use libdatachannel_java.Logic.Costs.{cost}
use libdatachannel_java.Logic.Costs.Raises.{raises}
use libdatachannel_java.Util.{wrap_error, throw_native_exception}
use libdatachannel_java.Callback.{allocate_callback}
use libdatachannel_java.Peer.Listener.{setup_peer_connection_listener, delete_peer_connection}
use libdatachannel_java.Channel.Transfer.{receive_message}
use libdatachannel_java.Api.{receive, serve}
use libdatachannel_java.Api.Exceptions.{serve-limit}
use libdatachannel_java.Peer.Create.{create_peer_connection}
use libdatachannel_java.Peer.Create.Termination.{create_peer_connection-length}
use libdatachannel_java.Examples.{machine, start}
use libdatachannel_java.Examples.Ledgers.{options}

-- rtc refuses every call, and a size was left by an earlier message.
abbrev refusing : Env
refusing = record machine {
  rtc = λ t c. negsuc 1;
  received_size = λ t n. pos 16;
  java_allocate = λ t n. some 300;
  get_direct_buffer_address = λ t b. some 4096;
}

abbrev exhausted : Env
exhausted = record machine { malloc = λ t n. none }

-- The limit of rtcReceiveMessage is met.
throws_twice : cost raises (receive_message (pos 2) refusing start).1.trace ≡ 2
unfolding receive_message ◌>>=◌ ◌>>◌ when◌then◌else◌ ask emit look pure wrap_error Calls.rtc
    Calls.throw Calls.java_allocate Calls.get_direct_buffer_address Calls.delete_local_ref
throws_twice = refl

-- So is that of setupPeerConnectionListener, without memory.
throws_again :
    cost raises (setup_peer_connection_listener (pos 1) (some 5) exhausted start).1.trace ≡ 2
unfolding setup_peer_connection_listener allocate_callback throw_native_exception ◌>>=◌ ◌>>◌ ask
    emit look read pure Calls.malloc Calls.throw
throws_again = refl

serve-limit_example :
    (cost raises (serve (receive (pos 2)) refusing start).1.trace ≤ 2 + cost raises start.trace)
    × (cost raises (setup_peer_connection_listener (pos 1) (some 5) refusing start).1.trace
        ≤ 2 + cost raises start.trace)
    × (cost raises (delete_peer_connection (pos 1) refusing start).1.trace
        ≤ cost raises start.trace)
serve-limit_example = serve-limit (receive (pos 2)) (pos 1) (some 5) refusing start

create_peer_connection-length_example :
    length (create_peer_connection options (some 5) (some 8) (some 6) machine start).1.trace
    ≤ 4 * 2 + 13 + length start.trace
create_peer_connection-length_example =
    create_peer_connection-length 2 options (some 5) (some 8) (some 6) machine start
      (λ t a. omega arith)
