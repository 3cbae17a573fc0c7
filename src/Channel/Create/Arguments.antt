-- ===== src/Channel/Create/Arguments.antt =====
-- The arguments that rtcCreateDataChannelEx of jni/src/native_channel.c gives to rtc.
use libdatachannel_java.Prelude.{refl, Option}
use libdatachannel_java.Prelude.Int.{ℤ, pos, int_le}
use libdatachannel_java.Native.Event.{Ptr, Ref, Trace, rtc_create_data_channel_ex}
use libdatachannel_java.Native.World.{World, Env, read, pure, ◌>>=◌, ◌>>◌, when◌then◌else◌, ask}
use libdatachannel_java.Native.Calls
use libdatachannel_java.Logic.Keeps.{Keeps, Keeps-pure, Keeps->>, Keeps->>=, Keeps-when}
use libdatachannel_java.Logic.Story.{
  story, Lends, Throws, Throws-native, Throws->>, ask-story, emit-story,
}
use libdatachannel_java.Util.{exception_thrown}
use libdatachannel_java.Strings.{release_if_chars}
use libdatachannel_java.Strings.Asking.{Asked, asked, release_if_chars-story, with_chars-Asked}
use libdatachannel_java.Channel.Create.{
  ChannelOptions, channel_init, inherit_user_pointer, create_channel_with, no_protocol,
  create_data_channel_ex,
}

pub inherit_user_pointer-story : (n peer : ℤ) → Keeps story (inherit_user_pointer n peer)
unfolding inherit_user_pointer Calls.get_user_pointer Calls.set_user_pointer
inherit_user_pointer-story n peer =
    Keeps->>= (ask-story _ _ (λ a t. refl)) (λ p. emit-story _ (λ t. refl))

module _ (peer : ℤ) (o : ChannelOptions) (label protocol : Option Ref) where
  after-story :
      (p q : Option Ptr) (n : ℤ)
      → Keeps story (
          release_if_chars label p
          >> (release_if_chars protocol q
              >> ((when int_le (pos 0) n then inherit_user_pointer n peer else pure tt) >> pure n)))
  after-story p q n = Keeps->> (release_if_chars-story _ _) (
      Keeps->> (release_if_chars-story _ _) (
        Keeps->> (Keeps-when _ (inherit_user_pointer-story n peer) (Keeps-pure tt)) (Keeps-pure n)))

  no_protocol-Throws :
      (p : Option Ptr) → Throws (no_protocol peer o label protocol p) exception_thrown
  unfolding no_protocol
  no_protocol-Throws p = Throws->> (release_if_chars-story _ _) (Throws-native _)

  create_channel_with-Asked :
      (env : Env) {t : Trace} (p q : Option Ptr) (t1 : Trace) (w : World)
      → Lends label p t t1
      → Lends protocol q t1 (story w)
      → Asked label protocol
          (λ c d. rtc_create_data_channel_ex peer c (channel_init env.to_field o d))
          t
          (create_channel_with peer o label protocol p q env w)
  unfolding create_channel_with read ◌>>=◌ ◌>>◌ ask pure Calls.rtc
  create_channel_with-Asked env p q t1 w l l' =
      let n : ℤ =
        env.rtc w.trace (rtc_create_data_channel_ex peer p (channel_init env.to_field o q)) in
      asked p q n l l' ((after-story p q n).kept env _)

  pub create_data_channel_ex-Asked :
      (env : Env) (w : World)
      → Asked label protocol
          (λ c d. rtc_create_data_channel_ex peer c (channel_init env.to_field o d))
          (story w)
          (create_data_channel_ex peer o label protocol env w)
  unfolding create_data_channel_ex
  create_data_channel_ex-Asked env w =
      with_chars-Asked label protocol _ env _ _ _ w refl (Throws-native _) no_protocol-Throws
        (create_channel_with-Asked env)
