-- ===== src/Api/Interleaving.antt =====
-- Requests of Java and notifications of rtc in any order.
pub mod Callbacks
pub mod Serving
use libdatachannel_java.Prelude.{List, [], ◌∷◌}
use libdatachannel_java.Prelude.Int.{ℤ}
use libdatachannel_java.Native.World.{M, pure, ◌>>=◌, ◌>>◌}
use libdatachannel_java.Logic.Stays.{pointer_set}
use libdatachannel_java.Api.{Request, Reply, serve, Notification, notify}

-- One request, or one notification for a handle with the user pointer of the peer.
pub data Turn : Type 0 where
  request : Request → Turn
  notification : Notification → Turn

-- rtc hands a handler what was last set as the user pointer.
unfoldable pub notify_peer : ℤ → Notification → M (Unit {0})
notify_peer peer n env w = notify n (pointer_set w.trace peer) env w

unfoldable pub run : ℤ → List Turn → M (List Reply)
run peer [] = pure []
run peer (request q ∷ ts) = serve q >>= λ r. run peer ts >>= λ rs. pure (r ∷ rs)
run peer (notification n ∷ ts) = notify_peer peer n >> run peer ts
