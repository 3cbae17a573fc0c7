-- ===== src/Channel/Query/Ownership.antt =====
-- The ledger of the questions about a channel.
use libdatachannel_java.Prelude.{List}
use libdatachannel_java.Prelude.Int.{ℤ}
use libdatachannel_java.Logic.Ledger.{Resource, local_ref}
use libdatachannel_java.Logic.Moves.{Moves, Moves->>=, Moves->>, got}
use libdatachannel_java.Logic.Rules.{rtc-Moves, look-Moves, create_reliability-Moves}
use libdatachannel_java.Util.Ownership.{wrap_error-Moves}
use libdatachannel_java.Channel.Query.{get_data_channel_reliability}

pub get_data_channel_reliability-Moves :
    {P : List Resource} (channel : ℤ)
    → Moves P (get_data_channel_reliability channel) (λ r. got local_ref r P)
unfolding get_data_channel_reliability
get_data_channel_reliability-Moves channel =
    Moves->>= (rtc-Moves _ (λ t h. tt)) λ n.
      Moves->> (wrap_error-Moves _ n) (Moves->>= (look-Moves _) λ v. create_reliability-Moves v)
