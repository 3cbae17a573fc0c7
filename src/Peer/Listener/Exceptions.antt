-- ===== src/Peer/Listener/Exceptions.antt =====
-- How many exceptions the functions of a listener's life in jni/src/native_peer.c throw.
use libdatachannel_java.Prelude.{Option, none, some, arith}
use libdatachannel_java.Prelude.Int.{ℤ}
use libdatachannel_java.Native.Event.{Ptr, Ref}
use libdatachannel_java.Native.World.{Env}
use libdatachannel_java.Logic.Costs.{
  Costs-pure, Costs-when, Costs->>=, Costs-free->>=, Costs-free->>,
}
use libdatachannel_java.Logic.Costs.Raises.{
  Raises, rtc-Raises, get_user_pointer-Raises, set_user_pointer-Raises,
}
use libdatachannel_java.Util.Exceptions.{fail-Raises}
use libdatachannel_java.Callback.Exceptions.{allocate_callback-Raises, free_callback-Raises}
use libdatachannel_java.Peer.Listener.{
  finish_setup, setup_peer_connection_listener, release_listener, delete_peer_connection,
}

-- The failure of allocate_callback is thrown again.
pub setup_peer_connection_listener-Raises :
    {env : Env} (peer : ℤ) (listener : Option Ref)
    → Raises 2 env (setup_peer_connection_listener peer listener)
unfolding setup_peer_connection_listener finish_setup
setup_peer_connection_listener-Raises peer listener =
    Costs->>= 1 1 (omega arith) (allocate_callback-Raises listener) (elim [
      | none ↦ fail-Raises _ _
      | some cb ↦ Costs-free->> (set_user_pointer-Raises peer (some cb)) (Costs-pure _)
    ])

release_listener-Raises :
    {env : Env} (n : ℤ) (ptr : Option Ptr) → Raises 0 env (release_listener n ptr)
unfolding release_listener
release_listener-Raises n none = Costs-pure tt
release_listener-Raises n (some cb) = Costs-when _ (free_callback-Raises cb) (Costs-pure tt)

pub delete_peer_connection-Raises :
    {env : Env} (peer : ℤ) → Raises 0 env (delete_peer_connection peer)
unfolding delete_peer_connection
delete_peer_connection-Raises peer = Costs-free->>= (get_user_pointer-Raises peer) λ ptr.
    Costs-free->>= (rtc-Raises _) λ n. Costs-free->> (release_listener-Raises n ptr) (Costs-pure n)
