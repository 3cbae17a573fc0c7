-- ===== src/Peer/Create.antt =====
-- rtcCreatePeerConnection of jni/src/native_peer.c.
pub mod Ownership
pub mod Quiet
pub mod Arguments
pub mod Exceptions
pub mod Termination
use libdatachannel_java.Prelude.{Bool, Option, none, some}
use libdatachannel_java.Prelude.Int.{ℤ}
use libdatachannel_java.Native.Event.{
  Ptr, Ref, RtcField, to_certificate_type, to_ice_transport_policy, to_port_range_begin,
  to_port_range_end, to_mtu, to_max_message_size, RtcConfiguration, rtc_create_peer_connection,
}
use libdatachannel_java.Native.World.{M, read, pure, ◌>>=◌, ◌>>◌}
use libdatachannel_java.Native.Calls.{rtc}
use libdatachannel_java.Util.{throw_failed_get_str, throw_native_exception, exception_thrown}
use libdatachannel_java.Strings.{with_chars, release_if_string}
use libdatachannel_java.Peer.Servers.{IceServers, chars_of, get_ice_servers, release_ice_servers}

-- The arguments that are no references.
pub record PeerOptions : Type 0 where
  pub certificate_type : ℤ
  pub ice_transport_policy : ℤ
  pub enable_ice_tcp : Bool
  pub enable_ice_udp_mux : Bool
  pub disable_auto_negotiation : Bool
  pub force_media_transport : Bool
  pub port_range_begin : ℤ
  pub port_range_end : ℤ
  pub mtu : ℤ
  pub max_message_size : ℤ

abbrev pub configuration :
    (RtcField → ℤ → ℤ)
    → PeerOptions
    → IceServers
    → (proxy_server bind_address : Option Ptr) → RtcConfiguration
configuration field o s proxy_server bind_address = record {
  certificate_type = field to_certificate_type o.certificate_type;
  ice_transport_policy = field to_ice_transport_policy o.ice_transport_policy;
  enable_ice_tcp = o.enable_ice_tcp;
  enable_ice_udp_mux = o.enable_ice_udp_mux;
  disable_auto_negotiation = o.disable_auto_negotiation;
  force_media_transport = o.force_media_transport;
  port_range_begin = field to_port_range_begin o.port_range_begin;
  port_range_end = field to_port_range_end o.port_range_end;
  mtu = field to_mtu o.mtu;
  max_message_size = field to_max_message_size o.max_message_size;
  ice_servers = chars_of s.slots;
  ice_servers_count = s.count;
  proxy_server = proxy_server;
  bind_address = bind_address;
}

module _ (o : PeerOptions) (proxy_server bind_address : Option Ref) where
  -- From the call of rtc on.
  create_with : IceServers → (proxy_chars bind_chars : Option Ptr) → M ℤ
  create_with s proxy_chars bind_chars = do
    field ← read (λ env. env.to_field)
    result ← rtc (rtc_create_peer_connection (configuration field o s proxy_chars bind_chars))
    release_if_string proxy_server proxy_chars
    release_if_string bind_address bind_chars
    release_ice_servers s
    pure result

  no_proxy_chars : IceServers → M ℤ
  no_proxy_chars s = do
    release_ice_servers s
    throw_failed_get_str "proxyServer"
    pure exception_thrown

  no_bind_chars : IceServers → Option Ptr → M ℤ
  no_bind_chars s proxy_chars = do
    release_if_string proxy_server proxy_chars
    release_ice_servers s
    throw_failed_get_str "bindAddress"
    pure exception_thrown

  create_from : IceServers → M ℤ
  unfolding create_with no_proxy_chars no_bind_chars
  create_from s = with_chars proxy_server (no_proxy_chars s) λ proxy_chars.
      with_chars bind_address (no_bind_chars s proxy_chars) (create_with s proxy_chars)

  unfoldable pub create_peer_connection : Option Ref → M ℤ
  unfolding create_from
  create_peer_connection ice_servers = do
    servers ← get_ice_servers ice_servers
    elim servers [ none ↦ pure exception_thrown | some s ↦ create_from s ]
