-- ===== src/Peer/Create/Termination.antt =====
-- How many calls rtcCreatePeerConnection of jni/src/native_peer.c makes.
use libdatachannel_java.Prelude.{ℕ, ◌+◌, ◌*◌, ◌≤◌, Option, none, some, length, arith}
use libdatachannel_java.Prelude.Int.{pos_part}
use libdatachannel_java.Native.Event.{Ptr, Ref, Trace}
use libdatachannel_java.Native.World.{World, Env, M}
use libdatachannel_java.Native.Calls
use libdatachannel_java.Logic.Costs.Calls.{
  Makes, Pays-pure, Pays-emit, Pays-ask, Pays-read, Pays->>=, Pays->>, Pays-more, fail-Pays,
}
use libdatachannel_java.Strings.{with_chars, release_if_string}
use libdatachannel_java.Peer.Servers.{IceServers}
use libdatachannel_java.Peer.Servers.Cost.{release_ice_servers-Makes, get_ice_servers-Pays}
use libdatachannel_java.Peer.Create.{
  PeerOptions, create_with, no_proxy_chars, no_bind_chars, create_from, create_peer_connection,
}

module _ {env : Env} where
  with_chars-Makes :
      {A : Type 0} (k : ℕ) (s : Option Ref) {fail : M A} {next : Option Ptr → M A}
      → Makes k env fail
      → ((c : Option Ptr) → Makes k env (next c))
      → Makes (k + 1) env (with_chars s fail next)
  unfolding with_chars Calls.get_string_utf_chars
  with_chars-Makes k none f n = Pays-more (omega arith) (n none)
  with_chars-Makes k (some s) f n =
      Pays->>= {φ = λ _. 0} 1 k (omega arith) (Pays-ask _ _ (λ t. omega arith))
        (elim [ none ↦ Pays-more (omega arith) f | some p ↦ Pays-more (omega arith) (n (some p)) ])

  release_if_string-Makes : (s : Option Ref) (c : Option Ptr) → Makes 1 env (release_if_string s c)
  unfolding release_if_string Calls.release_string_utf_chars
  release_if_string-Makes none c = Pays-pure tt (omega arith)
  release_if_string-Makes (some s) c = Pays-emit _ (omega arith)

  create_from-Makes :
      (o : PeerOptions) (proxy bind : Option Ref) (s : IceServers)
      → Makes (2 * length s.slots + 7) env (create_from o proxy bind s)
  unfolding create_from create_with no_proxy_chars no_bind_chars Calls.rtc
  create_from-Makes o proxy bind s =
      let n = 2 * length s.slots in
      Pays-more (omega arith) (
        with_chars-Makes (n + 6) proxy
          (Pays->> (n + 2) 1 (omega arith) (release_ice_servers-Makes s)
            (fail-Pays _ _ (omega arith)))
          λ p. Pays-more (omega arith) (
            with_chars-Makes (n + 5) bind
              (Pays->> 1 (n + 4) (omega arith) (release_if_string-Makes proxy p) (
                Pays->> (n + 2) 1 (omega arith) (release_ice_servers-Makes s)
                  (fail-Pays _ _ (omega arith))))
              λ b. Pays->>= {φ = λ _. 0} 0 (n + 5) (omega arith) (Pays-read _) λ field.
                Pays->>= {φ = λ _. 0} 1 (n + 4) (omega arith) (Pays-ask _ _ (λ t. omega arith)) λ r.
                  Pays->> 1 (n + 3) (omega arith) (release_if_string-Makes proxy p) (
                    Pays->> 1 (n + 2) (omega arith) (release_if_string-Makes bind b) (
                      Pays->> (n + 2) 0 (omega arith) (release_ice_servers-Makes s)
                        (Pays-pure r (omega arith))))))

  create_peer_connection-Makes :
      (n : ℕ) (o : PeerOptions) (proxy bind array : Option Ref)
      → ((t : Trace) (a : Ref) → pos_part (env.get_array_length t a) ≤ n)
      → Makes (4 * n + 13) env (create_peer_connection o proxy bind array)
  unfolding create_peer_connection
  create_peer_connection-Makes n o proxy bind array h =
      Pays->>= (4 * n + 6) 7 (omega arith) (get_ice_servers-Pays n h array)
        (elim [ none ↦ Pays-pure _ (omega arith) | some s ↦ create_from-Makes o proxy bind s ])

-- A sum that ends with 0, from its parts.
without_zero : (a b k : ℕ) → a + 0 ≤ k + b → a ≤ k + b
without_zero a b k h = omega arith

-- In any environment where arrays have at most `n` elements, from any state and with any arguments,
-- failures included: rtcCreatePeerConnection ends after at most 4 * n + 13 calls to the outside.
pub create_peer_connection-length :
    (n : ℕ) (o : PeerOptions) (proxy bind array : Option Ref) (env : Env) (w : World)
    → ((t : Trace) (a : Ref) → pos_part (env.get_array_length t a) ≤ n)
    → length (create_peer_connection o proxy bind array env w).1.trace ≤ 4 * n + 13 + length w.trace
create_peer_connection-length n o proxy bind array env w h =
    without_zero _ _ _ ((create_peer_connection-Makes n o proxy bind array h).pays w)
