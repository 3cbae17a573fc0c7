-- ===== src/Channel/Create/Exceptions.antt =====
-- How many exceptions the functions that open channels and tracks throw.
use libdatachannel_java.Prelude.{Option}
use libdatachannel_java.Prelude.Int.{ℤ}
use libdatachannel_java.Native.Event.{Ref}
use libdatachannel_java.Native.World.{Env}
use libdatachannel_java.Logic.Costs.{
  Costs-pure, Costs-read, Costs-when, Costs-free->>=, Costs-free->>,
}
use libdatachannel_java.Logic.Costs.Raises.{
  Raises, rtc-Raises, get_user_pointer-Raises, set_user_pointer-Raises,
}
use libdatachannel_java.Util.Exceptions.{fail-Raises}
use libdatachannel_java.Strings.Exceptions.{with_chars-Raises, release_if_chars-Raises}
use libdatachannel_java.Channel.Create.{
  ChannelOptions, inherit_user_pointer, create_channel_with, no_protocol, create_data_channel_ex,
}

module _ {env : Env} where
  pub inherit_user_pointer-Raises :
      (result peer : ℤ) → Raises 0 env (inherit_user_pointer result peer)
  unfolding inherit_user_pointer
  inherit_user_pointer-Raises result peer =
      Costs-free->>= (get_user_pointer-Raises peer) λ p. set_user_pointer-Raises result p

  pub create_data_channel_ex-Raises :
      (peer : ℤ) (o : ChannelOptions) (l p : Option Ref)
      → Raises 1 env (create_data_channel_ex peer o l p)
  unfolding create_data_channel_ex create_channel_with no_protocol
  create_data_channel_ex-Raises peer o l p = with_chars-Raises l (fail-Raises _ _) λ c.
      with_chars-Raises p (Costs-free->> (release_if_chars-Raises l c) (fail-Raises _ _)) λ d.
        Costs-free->>= (Costs-read _) λ field. Costs-free->>= (rtc-Raises _) λ n.
          Costs-free->> (release_if_chars-Raises l c) (
            Costs-free->> (release_if_chars-Raises p d) (
              Costs-free->> (Costs-when _ (inherit_user_pointer-Raises n peer) (Costs-pure tt))
                (Costs-pure n)))
