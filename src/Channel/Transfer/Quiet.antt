-- ===== src/Channel/Transfer/Quiet.antt =====
-- The listeners and user pointers under sending and receiving.
use libdatachannel_java.Logic.Stays.{
  Stays, Stays-pure, Stays->>=, Stays->>, Stays-when, Stays-look, rtc-Stays, delete_local_ref-Stays,
  get_direct_buffer_address-Stays, get_direct_buffer_capacity-Stays, java_allocate-Stays,
}
use libdatachannel_java.Prelude.{Option, none, some}
use libdatachannel_java.Prelude.Int.{ℤ}
use libdatachannel_java.Native.Event.{Ref}
use libdatachannel_java.Native.World.{Env}
use libdatachannel_java.Util.Quiet.{fail-Stays, wrap_error-Stays}
use libdatachannel_java.Channel.Transfer.{
  send_from, send_at, send_message, receive_at, receive_into_new, receive_message, receive_result,
  receive_range, receive_from, receive_message_into,
}

module _ {env : Env} {peer : ℤ} where
  pub send_message-Stays :
      (channel : ℤ) (b : Option Ref) (offset length : ℤ)
      → Stays env peer (send_message channel b offset length)
  unfolding send_message send_at send_from
  send_message-Stays channel none offset length = Stays-pure _
  send_message-Stays channel (some b) offset length =
      Stays->>= (get_direct_buffer_address-Stays b) (elim [
        | none ↦ fail-Stays _ _
        | some a ↦
            Stays->>= (get_direct_buffer_capacity-Stays b)
              λ k. Stays-when _ (fail-Stays _ _) (Stays-when _ (fail-Stays _ _) (rtc-Stays _))
      ])

  pub receive_message-Stays : (channel : ℤ) → Stays env peer (receive_message channel)
  unfolding receive_message receive_into_new receive_at
  receive_message-Stays channel = Stays->>= (rtc-Stays _) λ n. Stays->> (wrap_error-Stays _ n) (
      Stays->>= (Stays-look _) λ size. Stays-when _ (Stays-pure none) (
        Stays->>= (java_allocate-Stays size) (elim [
          | none ↦ Stays-pure none
          | some b ↦ Stays->>= (get_direct_buffer_address-Stays b) (elim [
            | none ↦ Stays->> (delete_local_ref-Stays _) (fail-Stays _ none)
            | some t ↦ Stays->>= (rtc-Stays _) λ m.
                Stays-when _ (Stays->> (delete_local_ref-Stays _) (Stays-pure none)) (
                  Stays-when _
                    (Stays->> (wrap_error-Stays _ m)
                      (Stays->> (delete_local_ref-Stays _) (Stays-pure none)))
                    (Stays-pure _))
          ])
        ])))

  pub receive_message_into-Stays :
      (channel : ℤ) (b : Option Ref) (offset capacity : ℤ)
      → Stays env peer (receive_message_into channel b offset capacity)
  unfolding receive_message_into receive_from receive_range receive_result
  receive_message_into-Stays channel none offset capacity = Stays-pure _
  receive_message_into-Stays channel (some b) offset capacity =
      Stays->>= (get_direct_buffer_address-Stays b) (elim [
        | none ↦ fail-Stays _ _
        | some a ↦ Stays->>= (get_direct_buffer_capacity-Stays b) λ k.
            Stays-when _ (fail-Stays _ _) (
              Stays->>= (rtc-Stays _) λ n. Stays->>= (Stays-look _) λ size.
                Stays-when _ (Stays-pure _)
                  (Stays-when _ (Stays-pure _) (Stays->> (wrap_error-Stays _ n) (Stays-pure _))))
      ])
