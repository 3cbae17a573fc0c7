-- ===== src/Channel/Transfer/Exceptions.antt =====
-- How many exceptions sending and receiving throw.
use libdatachannel_java.Prelude.{Option, none, some, arith}
use libdatachannel_java.Prelude.Int.{ℤ}
use libdatachannel_java.Native.Event.{Ref}
use libdatachannel_java.Native.World.{Env}
use libdatachannel_java.Logic.Costs.{
  Costs-pure, Costs-look, Costs-more, Costs-when, Costs->>, Costs-free->>=, Costs-free->>,
  Costs->>-free,
}
use libdatachannel_java.Logic.Costs.Raises.{
  Raises, rtc-Raises, delete_local_ref-Raises, get_direct_buffer_address-Raises,
  get_direct_buffer_capacity-Raises, java_allocate-Raises,
}
use libdatachannel_java.Util.Exceptions.{fail-Raises, wrap_error-Raises}
use libdatachannel_java.Channel.Transfer.{
  send_from, send_at, send_message, receive_at, receive_into_new, receive_message, receive_result,
  receive_range, receive_from, receive_message_into,
}

module _ {env : Env} where
  pub send_message-Raises :
      (channel : ℤ) (b : Option Ref) (offset length : ℤ)
      → Raises 1 env (send_message channel b offset length)
  unfolding send_message send_at send_from
  send_message-Raises channel none offset length = Costs-pure _
  send_message-Raises channel (some b) offset length =
      Costs-free->>= (get_direct_buffer_address-Raises b) (elim [
        | none ↦ fail-Raises _ _
        | some a ↦ Costs-free->>= (get_direct_buffer_capacity-Raises b) λ k.
            Costs-when _ (fail-Raises _ _)
              (Costs-when _ (fail-Raises _ _) (Costs-more (rtc-Raises _)))
      ])

  receive_into_new-Raises : (channel size : ℤ) → Raises 1 env (receive_into_new channel size)
  unfolding receive_into_new receive_at
  receive_into_new-Raises channel size = Costs-free->>= (java_allocate-Raises size) (elim [
    | none ↦ Costs-pure none
    | some b ↦ Costs-free->>= (get_direct_buffer_address-Raises b) (elim [
      | none ↦ Costs-free->> (delete_local_ref-Raises _) (fail-Raises _ none)
      | some t ↦ Costs-free->>= (rtc-Raises _) λ m.
          Costs-when _ (Costs-free->> (delete_local_ref-Raises _) (Costs-pure none)) (
            Costs-when _
              (Costs->>-free (wrap_error-Raises _ m)
                (Costs-free->> (delete_local_ref-Raises _) (Costs-pure none)))
              (Costs-pure _))
    ])
  ])

  -- The first error code is thrown and not tested.
  pub receive_message-Raises : (channel : ℤ) → Raises 2 env (receive_message channel)
  unfolding receive_message
  receive_message-Raises channel = Costs-free->>= (rtc-Raises _) λ n.
      Costs->> 1 1 (omega arith) (wrap_error-Raises _ n) (
        Costs-free->>= (Costs-look _)
          λ size. Costs-when _ (Costs-pure none) (receive_into_new-Raises channel size))

  pub receive_message_into-Raises :
      (channel : ℤ) (b : Option Ref) (offset capacity : ℤ)
      → Raises 1 env (receive_message_into channel b offset capacity)
  unfolding receive_message_into receive_from receive_range receive_result
  receive_message_into-Raises channel none offset capacity = Costs-pure _
  receive_message_into-Raises channel (some b) offset capacity =
      Costs-free->>= (get_direct_buffer_address-Raises b) (elim [
        | none ↦ fail-Raises _ _
        | some a ↦ Costs-free->>= (get_direct_buffer_capacity-Raises b) λ k.
            Costs-when _ (fail-Raises _ _) (
              Costs-free->>= (rtc-Raises _) λ n. Costs-free->>= (Costs-look _) λ size.
                Costs-when _ (Costs-pure _) (
                  Costs-when _ (Costs-pure _)
                    (Costs->>-free (wrap_error-Raises _ n) (Costs-pure _))))
      ])
