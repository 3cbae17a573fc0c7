-- ===== src/Examples/Listeners.antt =====
-- A listener's life and rtc's notifications on the concrete machine.
use libdatachannel_java.Prelude.{none, ℕ, ◌≡◌, refl, some, [], ◌∷◌, arith}
use libdatachannel_java.Prelude.Int.{pos}
use libdatachannel_java.Native.Event
use libdatachannel_java.Native.Calls
use libdatachannel_java.Native.World.{◌>>=◌, ◌>>◌, ask, pure}
use libdatachannel_java.Util.{err_success}
use libdatachannel_java.Native.Event.{Trace}
use libdatachannel_java.Native.World.{World}
use libdatachannel_java.Logic.Ledger.{Resource, held}
use libdatachannel_java.Logic.Keeps.{upcalls}
use libdatachannel_java.Logic.Moves.{Owns, Safe-Owns}
use libdatachannel_java.Init.{get_jni_env, jni_on_unload}
use libdatachannel_java.Callback.{allocate_callback, free_callback}
use libdatachannel_java.Callback.Lifecycle.{
  IsListener, Allocated, allocate_callback-Allocated, free_callback-Owns,
}
use libdatachannel_java.Peer.Listener.{setup_peer_connection_listener, delete_peer_connection}
use libdatachannel_java.Peer.Listener.Ownership.{
  SetUp, Deleted, setup_peer_connection_listener-SetUp, delete_peer_connection-Deleted,
}
use libdatachannel_java.Channel.Create.{create_data_channel_ex}
use libdatachannel_java.Track
use libdatachannel_java.Native.Event.{rtc_add_remote_candidate}
use libdatachannel_java.Logic.Story.{story}
use libdatachannel_java.Strings.Asking.{Asked}
use libdatachannel_java.Peer.Describe.{
  add_remote_candidate, set_local_description, set_remote_description,
}
use libdatachannel_java.Peer.Describe.Arguments.{Described, Local, Remote, descriptions-Described}
use libdatachannel_java.Channel.Create.{channel_init}
use libdatachannel_java.Api.Arguments.{strings-Asked}
use libdatachannel_java.Track.Inherit.{add_track-Inherited}
use libdatachannel_java.Channel.Create.Inherit.{Inherited, create_data_channel_ex-Inherited}
use libdatachannel_java.Api.Quiet.{linked-serve_all}
use libdatachannel_java.Api.{serve_all}
use libdatachannel_java.Logic.Stays.{linked, opens, pointer_set}
use libdatachannel_java.Native.Event.{RtcCall, rtc_create_data_channel_ex, rtc_add_track}
use libdatachannel_java.Native.World.{Env}
use libdatachannel_java.Prelude.{ℕ, true, false, List, [], ◌∷◌}
use libdatachannel_java.Prelude.Int.{int_eq}
use libdatachannel_java.Channel.Create.{ChannelOptions}
use libdatachannel_java.Api.{Request, create_channel, add_track}
use libdatachannel_java.Api.Ownership.{keep_all}
use libdatachannel_java.Api.Sessions.{
  Reached, session, notify-session, delete_peer_connection-session,
}
use libdatachannel_java.Api.{channel_message, data_channel_opened, notify}
use libdatachannel_java.Api.Delivery.{Delivered, entered, notify-Delivered, notify-after_unload}
use libdatachannel_java.Examples.{machine, start, world_after}

-- The calls that made the listener.
abbrev listening : World
listening = world_after (Event.new_global_ref (some 5) (some 201) ∷ Event.malloc 16 (some 200) ∷ [])

abbrev nothing : Resource → ℕ
nothing r = 0

listening-IsListener : IsListener [] nothing 200 201 listening
listening-IsListener = record {
  carries = refl;
  owns = record { safe = ((tt, tt), tt); exact = λ r. omega arith };
}

allocate_callback-Allocated_example :
    Allocated [] (held start.trace) (allocate_callback (some 5) machine start)
allocate_callback-Allocated_example =
    allocate_callback-Allocated machine start (some 5) (Safe-Owns tt)

free_callback-Owns_example : Owns [] nothing (free_callback 200 machine listening).1.trace
free_callback-Owns_example = free_callback-Owns machine listening 200 201 listening-IsListener

setup_peer_connection_listener-SetUp_example :
    SetUp []
      (held start.trace)
      (pos 1)
      (setup_peer_connection_listener (pos 1) (some 5) machine start)
setup_peer_connection_listener-SetUp_example =
    setup_peer_connection_listener-SetUp (pos 1) machine (some 5) start (Safe-Owns tt)

delete_peer_connection-Deleted_example :
    Deleted [] nothing 200 201 (delete_peer_connection (pos 1) machine listening)
delete_peer_connection-Deleted_example =
    delete_peer_connection-Deleted 200 201 machine (pos 1) listening listening-IsListener refl

notify-Delivered_example :
    Delivered
      (channel_message (pos 2) 4096 (pos 16))
      200
      (entered (channel_message (pos 2) 4096 (pos 16)) 200 start)
      (get_jni_env machine (entered (channel_message (pos 2) 4096 (pos 16)) 200 start)).0
      (notify (channel_message (pos 2) 4096 (pos 16)) (some 200) machine start).1
notify-Delivered_example =
    notify-Delivered (channel_message (pos 2) 4096 (pos 16)) 200 machine start

notify-after_unload_example :
    upcalls
      (notify
        (data_channel_opened (pos 2))
        (some 200)
        machine
        (jni_on_unload 1 machine start).1).1.trace
    ≡ upcalls (jni_on_unload 1 machine start).1.trace
notify-after_unload_example =
    notify-after_unload 1 (data_channel_opened (pos 2)) (some 200) machine machine start

-- An rtc library that keeps user pointers.
abbrev pub registry : Env
registry = record machine { get_user_pointer = pointer_set }

pub distinct :
    (t : Trace) (c : RtcCall) → opens c ≡ true → int_eq (registry.rtc t c) (pos 1) ≡ false
distinct t (rtc_create_data_channel_ex h l i) e = refl
distinct t (rtc_add_track h sdp) e = refl
distinct t c e = cc

abbrev pub channel_options : ChannelOptions
channel_options = record {
  unordered = true;
  unreliable = false;
  max_packet_life_time = pos 0;
  max_retransmits = pos 0;
  negotiated = false;
  stream = pos 0;
  manual_stream = false;
}

abbrev pub requests : List Request
requests = create_channel (pos 1) channel_options (some 7) none ∷ add_track (pos 1) (some 8) ∷ []

pub set_up_succeeds :
    (setup_peer_connection_listener (pos 1) (some 5) registry start).0 ≡ err_success
unfolding setup_peer_connection_listener ◌>>=◌ ◌>>◌ allocate_callback Calls.malloc
    Calls.new_global_ref ask pure
set_up_succeeds = refl

notify-session_example :
    Reached
      (data_channel_opened (pos 2))
      (pos 1)
      registry
      (session (pos 1) (some 5) requests registry start).1
      (notify
        (data_channel_opened (pos 2))
        (pointer_set (session (pos 1) (some 5) requests registry start).1.trace (pos 1))
        registry
        (session (pos 1) (some 5) requests registry start).1).1
notify-session_example =
    notify-session (pos 1) (some 5) requests registry start (data_channel_opened (pos 2)) tt
      distinct set_up_succeeds

delete_peer_connection-session_example :
    (cb : ℕ) × (g : ℕ) × Deleted
      (keep_all (session (pos 1) (some 5) requests registry start).0 [])
      (held start.trace)
      cb
      g
      (delete_peer_connection (pos 1) registry (session (pos 1) (some 5) requests registry start).1)
delete_peer_connection-session_example =
    delete_peer_connection-session (pos 1) (some 5) requests registry start tt distinct
      set_up_succeeds refl

linked-serve_all_example :
    linked (pos 1) (serve_all requests registry start).1 ≡ linked (pos 1) start
linked-serve_all_example = linked-serve_all (pos 1) requests registry start distinct

keeps_pointers : (t : Trace) → registry.get_user_pointer t (pos 1) ≡ pointer_set t (pos 1)
keeps_pointers t = refl

create_data_channel_ex-Inherited_example :
    Inherited
      (pos 1)
      (pointer_set start.trace (pos 1))
      (create_data_channel_ex (pos 1) channel_options (some 7) (some 8) registry start)
create_data_channel_ex-Inherited_example =
    create_data_channel_ex-Inherited (pos 1) registry keeps_pointers channel_options (some 7)
      (some 8) start

add_track-Inherited_example :
    Inherited
      (pos 1)
      (pointer_set start.trace (pos 1))
      (Track.add_track (pos 1) (some 8) registry start)
add_track-Inherited_example = add_track-Inherited (pos 1) registry keeps_pointers (some 8) start

strings-Asked_example :
    Asked
      (some 7)
      none
      (rtc_add_remote_candidate (pos 1))
      (story start)
      (add_remote_candidate (pos 1) (some 7) none registry start)
    × Asked
        (some 7)
        none
        (λ p q.
          rtc_create_data_channel_ex (pos 1) p (channel_init (registry.to_field) channel_options q))
        (story start)
        (create_data_channel_ex (pos 1) channel_options (some 7) none registry start)
    × Asked
        (some 7)
        none
        (λ p q. rtc_add_track (pos 1) p)
        (story start)
        (Track.add_track (pos 1) (some 7) registry start)
strings-Asked_example = strings-Asked (pos 1) channel_options (some 7) none registry start

descriptions-Described_example :
    Described
      (some 8)
      none
      (Local (pos 1))
      (story start)
      (set_local_description (pos 1) (some 8) registry start)
    × Described
        (some 7)
        (some 8)
        (Remote (pos 1))
        (story start)
        (set_remote_description (pos 1) (some 7) (some 8) registry start)
descriptions-Described_example = descriptions-Described (pos 1) (some 7) (some 8) registry start
