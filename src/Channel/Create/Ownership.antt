-- ===== src/Channel/Create/Ownership.antt =====
-- The ledger of rtcCreateDataChannelEx.
use libdatachannel_java.Prelude.{refl, Option, List, arith}
use libdatachannel_java.Prelude.Int.{ℤ}
use libdatachannel_java.Native.Event.{Ref}
use libdatachannel_java.Logic.Ledger.{Resource}
use libdatachannel_java.Logic.Moves.{Moves, Moves-pure, Moves->>=, Moves->>}
use libdatachannel_java.Logic.Rules.{
  rtc-Moves, read-Moves, when-Moves, get_user_pointer-Moves, set_user_pointer-Moves,
}
use libdatachannel_java.Util.Ownership.{fail-Moves}
use libdatachannel_java.Strings.Ownership.{
  lend, count-lend, count-lend_twice, Lent-lent, with_chars-Moves, release_if_chars-Moves,
}
use libdatachannel_java.Channel.Create.{
  ChannelOptions, inherit_user_pointer, create_channel_with, no_protocol, create_data_channel_ex,
}

module _ {P : List Resource} where
  pub inherit_user_pointer-Moves :
      (result peer : ℤ) → Moves P (inherit_user_pointer result peer) (λ _. P)
  unfolding inherit_user_pointer
  inherit_user_pointer-Moves result peer =
      Moves->>= (get_user_pointer-Moves peer) λ p. set_user_pointer-Moves result p

  pub create_data_channel_ex-Moves :
      (peer : ℤ) (o : ChannelOptions) (label protocol : Option Ref)
      → Moves P (create_data_channel_ex peer o label protocol) (λ _. P)
  unfolding create_data_channel_ex create_channel_with no_protocol
  create_data_channel_ex-Moves peer o label protocol =
      with_chars-Moves label (fail-Moves _ _ refl) λ c p.
        with_chars-Moves protocol
          (Moves->> (release_if_chars-Moves label c P p (count-lend label c P))
            (fail-Moves _ _ refl))
          λ d q.
            let all = count-lend_twice protocol d label c P in
            Moves->>= (read-Moves _) λ field.
              Moves->>=
                (rtc-Moves _ (λ t h. (
                  Lent-lent label c t p (λ r. omega (arith, h r, all r)),
                  Lent-lent protocol d t q (λ r. omega (arith, h r, all r)),
                )))
                λ n.
                  Moves->>
                    (release_if_chars-Moves label c (lend protocol d P) p
                      (λ r. omega (arith, all r, count-lend protocol d P r)))
                    (Moves->> (release_if_chars-Moves protocol d P q (count-lend protocol d P)) (
                      Moves->>
                        (when-Moves _ (inherit_user_pointer-Moves n peer) (Moves-pure tt refl))
                        (Moves-pure n refl)))
