-- ===== src/Api/Arguments.antt =====
-- The arguments that the functions with Java strings give to rtc.
use libdatachannel_java.Prelude.{refl, none, Option}
use libdatachannel_java.Prelude.Int.{ℤ}
use libdatachannel_java.Native.Event.{
  Ptr, Ref, rtc_add_remote_candidate, rtc_create_data_channel_ex, rtc_add_track,
}
use libdatachannel_java.Native.World.{World, Env, pure, ◌>>=◌, ◌>>◌, ask}
use libdatachannel_java.Native.Calls
use libdatachannel_java.Logic.Keeps.{Keeps, Keeps-pure, Keeps->>}
use libdatachannel_java.Logic.Story.{story, Throws-native, Throws->>, release_if_string-story}
use libdatachannel_java.Util.{throw_failed_get_str, exception_thrown}
use libdatachannel_java.Strings.{with_chars, release_if_chars, release_if_string}
use libdatachannel_java.Strings.Asking.{Asked, asked, release_if_chars-story, with_chars-Asked}
use libdatachannel_java.Peer.Describe.{add_remote_candidate}
use libdatachannel_java.Channel.Create.{
  ChannelOptions, channel_init, inherit_user_pointer, create_data_channel_ex,
}
use libdatachannel_java.Channel.Create.Arguments.{
  inherit_user_pointer-story, create_data_channel_ex-Asked,
}
use libdatachannel_java.Track.{add_track}

candidate-story :
    (c m : Option Ref) (p q : Option Ptr) (n : ℤ)
    → Keeps story (release_if_chars c p >> (release_if_chars m q >> pure n))
candidate-story c m p q n =
    Keeps->> (release_if_chars-story _ _) (Keeps->> (release_if_chars-story _ _) (Keeps-pure n))

add_remote_candidate-Asked :
    (peer : ℤ) (c m : Option Ref) (env : Env) (w : World)
    → Asked c m (rtc_add_remote_candidate peer) (story w) (add_remote_candidate peer c m env w)
unfolding add_remote_candidate ◌>>=◌ ◌>>◌ ask pure Calls.rtc
add_remote_candidate-Asked peer c m env w =
    with_chars-Asked c m (rtc_add_remote_candidate peer) env _ _ _ w refl (Throws-native _)
      (λ p. Throws->> (release_if_chars-story _ _) (Throws-native _))
      (λ p q t1 w' l l'.
        let n : ℤ = env.rtc w'.trace (rtc_add_remote_candidate peer p q) in
        asked p q n l l' ((candidate-story c m p q n).kept env _))

add_track-Asked :
    (peer : ℤ) (sdp : Option Ref) (env : Env) (w : World)
    → Asked sdp none (λ p q. rtc_add_track peer p) (story w) (add_track peer sdp env w)
unfolding add_track with_chars ◌>>=◌ ◌>>◌ ask pure Calls.rtc
add_track-Asked peer sdp env w =
    with_chars-Asked sdp none (λ p q. rtc_add_track peer p) env
      (throw_failed_get_str "sdp" >> pure exception_thrown)
      (λ p. throw_failed_get_str "sdp" >> pure exception_thrown)
      (λ p q. Calls.rtc (rtc_add_track peer p) >>= λ n.
        inherit_user_pointer n peer >> (release_if_string sdp p >> pure n))
      w refl (Throws-native _) (λ p. Throws-native _)
      (λ p q t1 w' l l'.
        let n : ℤ = env.rtc w'.trace (rtc_add_track peer p) in
        asked p q n l l' (
          (Keeps->> (inherit_user_pointer-story n peer)
              (Keeps->> (release_if_string-story sdp p) (Keeps-pure n))).kept
            env _))

-- In any environment and from any state, for any arguments: rtcAddRemoteCandidate,
-- rtcCreateDataChannelEx and rtcAddTrack read the characters of their Java strings in order, then
-- ask rtc exactly once to do what they are named for, with these characters, each at its place and
-- `NULL` for a string that is `NULL`, and the options converted to the types of their fields, and
-- answer what rtc answers without an exception. Or they have
-- only read from Java, throw exactly one exception and answer EXCEPTION_THROWN.
pub strings-Asked :
    (peer : ℤ) (o : ChannelOptions) (first second : Option Ref) (env : Env) (w : World)
    → Asked first second
        (rtc_add_remote_candidate peer)
        (story w)
        (add_remote_candidate peer first second env w)
      × Asked first second
          (λ p q. rtc_create_data_channel_ex peer p (channel_init env.to_field o q))
          (story w)
          (create_data_channel_ex peer o first second env w)
      × Asked first none (λ p q. rtc_add_track peer p) (story w) (add_track peer first env w)
strings-Asked peer o first second env w = (
  add_remote_candidate-Asked peer first second env w,
  create_data_channel_ex-Asked peer o first second env w,
  add_track-Asked peer first env w,
)
