-- ===== src/Examples/Turns.antt =====
-- Requests and notifications that take turns.
use libdatachannel_java.Prelude.{ℕ, refl, some, List, [], ◌∷◌}
use libdatachannel_java.Prelude.Int.{pos}
use libdatachannel_java.Logic.Ledger.{held}
use libdatachannel_java.Peer.Listener.{setup_peer_connection_listener, delete_peer_connection}
use libdatachannel_java.Peer.Listener.Ownership.{Deleted}
use libdatachannel_java.Api.{create_channel, add_track, data_channel_opened, channel_message}
use libdatachannel_java.Api.Ownership.{keep_all}
use libdatachannel_java.Api.Interleaving.{Turn, request, notification, run}
use libdatachannel_java.Api.Interleaving.Serving.{
  Undisturbed, run-Serving, delete_peer_connection-run,
}
use libdatachannel_java.Examples.{start}
use libdatachannel_java.Examples.Listeners.{registry, channel_options, distinct, set_up_succeeds}

abbrev turns : List Turn
turns =
    request (create_channel (pos 1) channel_options (some 7) (some 8))
    ∷ notification (data_channel_opened (pos 2))
    ∷ request (add_track (pos 1) (some 9))
    ∷ notification (channel_message (pos 2) 4096 (pos 16))
    ∷ []

run-Serving_example :
    (cb : ℕ) × (g : ℕ) × Undisturbed
      (keep_all
        (run
          (pos 1)
          turns
          registry
          (setup_peer_connection_listener (pos 1) (some 5) registry start).1).0
        [])
      (held start.trace)
      (pos 1)
      cb
      g
      (setup_peer_connection_listener (pos 1) (some 5) registry start).1
      (run
        (pos 1)
        turns
        registry
        (setup_peer_connection_listener (pos 1) (some 5) registry start).1).1
run-Serving_example =
    run-Serving (pos 1) (some 5) turns registry start refl tt distinct set_up_succeeds

delete_peer_connection-run_example :
    (cb : ℕ) × (g : ℕ) × Deleted
      (keep_all
        (run
          (pos 1)
          turns
          registry
          (setup_peer_connection_listener (pos 1) (some 5) registry start).1).0
        [])
      (held start.trace)
      cb
      g
      (delete_peer_connection
        (pos 1)
        registry
        (run
          (pos 1)
          turns
          registry
          (setup_peer_connection_listener (pos 1) (some 5) registry start).1).1)
delete_peer_connection-run_example =
    delete_peer_connection-run (pos 1) (some 5) turns registry start refl tt distinct
      set_up_succeeds refl
