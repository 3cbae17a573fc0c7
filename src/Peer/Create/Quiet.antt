-- ===== src/Peer/Create/Quiet.antt =====
-- The listeners and user pointers under rtcCreatePeerConnection.
use libdatachannel_java.Logic.Stays.{Stays, Stays-pure, Stays-read, Stays->>=, Stays->>, rtc-Stays}
use libdatachannel_java.Prelude.{Option, none, some}
use libdatachannel_java.Prelude.Int.{ℤ}
use libdatachannel_java.Native.Event.{Ref}
use libdatachannel_java.Native.World.{Env}
use libdatachannel_java.Util.Quiet.{fail-Stays}
use libdatachannel_java.Strings.Quiet.{with_chars-Stays, release_if_string-Stays}
use libdatachannel_java.Peer.Servers.Quiet.{get_ice_servers-Stays, release_ice_servers-Stays}
use libdatachannel_java.Peer.Create.{
  PeerOptions, create_with, no_proxy_chars, no_bind_chars, create_from, create_peer_connection,
}

module _ {env : Env} {peer : ℤ} where
  pub create_peer_connection-Stays :
      (o : PeerOptions) (proxy bind ice_servers : Option Ref)
      → Stays env peer (create_peer_connection o proxy bind ice_servers)
  unfolding create_peer_connection create_from create_with no_proxy_chars no_bind_chars
  create_peer_connection-Stays o proxy bind ice_servers =
      Stays->>= (get_ice_servers-Stays ice_servers) (elim [
        | none ↦ Stays-pure _
        | some s ↦
            with_chars-Stays proxy (Stays->> (release_ice_servers-Stays s) (fail-Stays _ _)) λ c.
              with_chars-Stays bind
                (Stays->> (release_if_string-Stays proxy c)
                  (Stays->> (release_ice_servers-Stays s) (fail-Stays _ _)))
                λ d. Stays->>= (Stays-read _) λ field. Stays->>= (rtc-Stays _) λ result.
                  Stays->> (release_if_string-Stays proxy c) (
                    Stays->> (release_if_string-Stays bind d)
                      (Stays->> (release_ice_servers-Stays s) (Stays-pure result)))
      ])
