-- ===== src/Channel/Create/Quiet.antt =====
-- The listeners and user pointers under rtcCreateDataChannelEx.
use libdatachannel_java.Prelude.{◌≡◌, refl, true, false, Option, ◌∙◌}
use libdatachannel_java.Prelude.Int.{ℤ, int_eq}
use libdatachannel_java.Native.Event.{Ref, RtcCall, Trace, rtc_create_data_channel_ex}
use libdatachannel_java.Native.World.{M, Env, ◌>>=◌, ask}
use libdatachannel_java.Logic.Stays.{
  opens, Stays, Stays-pure, Stays-read, Stays->>=, Stays->>, Stays-when, rtc-Stays,
  get_user_pointer-Stays, set_user_pointer-Stays,
}
use libdatachannel_java.Util.Quiet.{fail-Stays}
use libdatachannel_java.Strings.Quiet.{with_chars-Stays, release_if_chars-Stays}
use libdatachannel_java.Native.Calls
use libdatachannel_java.Channel.Create.{
  ChannelOptions, channel_init, inherit_user_pointer, create_channel_with, no_protocol,
  create_data_channel_ex,
}

module _ {env : Env} {peer : ℤ} where
  pub inherit_user_pointer-Stays :
      (n h : ℤ) → int_eq n peer ≡ false → Stays env peer (inherit_user_pointer n h)
  unfolding inherit_user_pointer
  inherit_user_pointer-Stays n h e =
      Stays->>= (get_user_pointer-Stays h) λ p. set_user_pointer-Stays n p e

-- What follows a call of rtc may count on the answer being no handle of the peer.
pub opening-Stays :
    {A : Type 0} {env : Env} {peer : ℤ} (c : RtcCall) (f : ℤ → M A)
    → ((t : Trace) → int_eq (env.rtc t c) peer ≡ false)
    → ((n : ℤ) → int_eq n peer ≡ false → Stays env peer (f n))
    → Stays env peer (Calls.rtc c >>= f)
unfolding ◌>>=◌ Calls.rtc ask
opening-Stays {env} {peer} c f distinct next = record {
  stays = λ w.
      (next (env.rtc w.trace c) (distinct w.trace)).stays _
      ∙ (rtc-Stays {env = env} {peer = peer} c).stays w;
}

module _ {env : Env} {peer : ℤ}
    (distinct : (t : Trace) (c : RtcCall)
      → opens c ≡ true
      → int_eq (env.rtc t c) peer ≡ false) where
  pub create_data_channel_ex-Stays :
      (h : ℤ) (o : ChannelOptions) (label protocol : Option Ref)
      → Stays env peer (create_data_channel_ex h o label protocol)
  unfolding create_data_channel_ex create_channel_with no_protocol
  create_data_channel_ex-Stays h o label protocol = with_chars-Stays label (fail-Stays _ _) λ c.
      with_chars-Stays protocol (Stays->> (release_if_chars-Stays label c) (fail-Stays _ _)) λ d.
        Stays->>= (Stays-read _) λ field.
          opening-Stays (rtc_create_data_channel_ex h c (channel_init field o d)) _
            (λ t. distinct t _ refl)
            λ n e. Stays->> (release_if_chars-Stays label c) (
              Stays->> (release_if_chars-Stays protocol d) (
                Stays->> (Stays-when _ (inherit_user_pointer-Stays n h e) (Stays-pure tt))
                  (Stays-pure n)))
