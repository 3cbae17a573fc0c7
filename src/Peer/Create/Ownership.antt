-- ===== src/Peer/Create/Ownership.antt =====
-- The ledger of rtcCreatePeerConnection.
use libdatachannel_java.Prelude.{refl, Option, none, some, List, [], arith}
use libdatachannel_java.Prelude.Int.{ℤ}
use libdatachannel_java.Native.Event.{Ptr, Ref, RtcField, Trace}
use libdatachannel_java.Native.World.{World, Env}
use libdatachannel_java.Logic.Ledger.{Resource, held, Safe, LiveArguments}
use libdatachannel_java.Native.Event.{rtc_create_peer_connection}
use libdatachannel_java.Logic.Moves.{
  Owns, Safe-Owns, Moves, Moves-pure, Moves->>=, Moves->>, Moves->>=-Yields, Holds,
}
use libdatachannel_java.Logic.Rules.{rtc-Moves, read-Moves}
use libdatachannel_java.Util.Ownership.{fail-Moves}
use libdatachannel_java.Strings.Ownership.{
  Pairs, lend, count-lend, count-lend_twice, Lent-lent, with_chars-Moves, release_if_string-Moves,
}
use libdatachannel_java.Peer.Servers.{IceServers}
use libdatachannel_java.Peer.Servers.Ownership.{
  with_servers, IsConsistent, AllLent-servers, get_ice_servers-Moves, get_ice_servers-IsConsistent,
  release_ice_servers-Moves,
}
use libdatachannel_java.Peer.Create.{
  PeerOptions, configuration, create_with, no_proxy_chars, no_bind_chars, create_from,
  create_peer_connection,
}

module _ (P : List Resource) (o : PeerOptions) (proxy bind : Option Ref) (s : IceServers)
    (consistent : IsConsistent (some s)) where
  -- All that the configuration points to is held while rtc reads it.
  configuration-Live :
      (field : RtcField → ℤ → ℤ) (c d : Option Ptr) (t : Trace)
      → Pairs proxy c
      → Pairs bind d
      → Holds (lend bind d (lend proxy c (with_servers P (some s)))) t
      → LiveArguments t (rtc_create_peer_connection (configuration field o s c d))
  configuration-Live field c d t p q h = (
    AllLent-servers s P t consistent
        (λ r. omega (arith, h r, count-lend_twice bind d proxy c (with_servers P (some s)) r)),
    Lent-lent proxy c t p
        (λ r. omega (arith, h r, count-lend_twice bind d proxy c (with_servers P (some s)) r)),
    Lent-lent bind d t q
        (λ r. omega (arith, h r, count-lend_twice bind d proxy c (with_servers P (some s)) r)),
  )

  create_with-Moves :
      (c d : Option Ptr)
      → Pairs proxy c
      → Pairs bind d
      → Moves
          (lend bind d (lend proxy c (with_servers P (some s))))
          (create_with o proxy bind s c d)
          (λ _. P)
  unfolding create_with
  create_with-Moves c d p q = Moves->>= (read-Moves _) λ field.
      Moves->>= (rtc-Moves _ (λ t h. configuration-Live field c d t p q h)) λ result.
        Moves->>
          (release_if_string-Moves proxy c (lend bind d (with_servers P (some s))) p (λ r. omega (
            arith,
            count-lend_twice bind d proxy c (with_servers P (some s)) r,
            count-lend bind d (with_servers P (some s)) r,
          )))
          (Moves->>
            (release_if_string-Moves bind d (with_servers P (some s)) q
              (λ r. count-lend bind d (with_servers P (some s)) r))
            (Moves->> (release_ice_servers-Moves s consistent) (Moves-pure result refl)))

  create_from-Moves : Moves (with_servers P (some s)) (create_from o proxy bind s) (λ _. P)
  unfolding create_from no_proxy_chars no_bind_chars
  create_from-Moves =
      with_chars-Moves proxy
        (Moves->> (release_ice_servers-Moves s consistent) (fail-Moves _ _ refl))
        λ c p.
          with_chars-Moves bind
            (Moves->>
              (release_if_string-Moves proxy c (with_servers P (some s)) p
                (λ r. count-lend proxy c (with_servers P (some s)) r))
              (Moves->> (release_ice_servers-Moves s consistent) (fail-Moves _ _ refl)))
            (λ d q. create_with-Moves c d p q)

pub create_peer_connection-Moves :
    {P : List Resource} (o : PeerOptions) (proxy bind ice_servers : Option Ref)
    → Moves P (create_peer_connection o proxy bind ice_servers) (λ _. P)
unfolding create_peer_connection
create_peer_connection-Moves {P} o proxy bind ice_servers =
    Moves->>=-Yields (get_ice_servers-Moves ice_servers) (get_ice_servers-IsConsistent ice_servers)
      (elim [ none ↦ λ c. Moves-pure _ refl | some s ↦ λ c. create_from-Moves P o proxy bind s c ])

-- Where all calls made so far were allowed: whatever the JVM, the allocator and rtc answer,
-- rtcCreatePeerConnection makes only allowed calls (it frees and releases only what is held, and
-- rtc gets only characters that their strings still lend), and in the end exactly the blocks,
-- characters and references are held that were held before.
pub create_peer_connection-Owns :
    (o : PeerOptions) (proxy bind ice_servers : Option Ref) (env : Env) (w : World)
    → Safe w.trace
    → Owns [] (held w.trace) (create_peer_connection o proxy bind ice_servers env w).1.trace
create_peer_connection-Owns o proxy bind ice_servers env w s =
    (create_peer_connection-Moves o proxy bind ice_servers).run env w (held w.trace) (Safe-Owns s)
