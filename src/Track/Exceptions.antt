-- ===== src/Track/Exceptions.antt =====
-- How many exceptions the functions of jni/src/native_track.c throw.
use libdatachannel_java.Prelude.{Option}
use libdatachannel_java.Prelude.Int.{ℤ}
use libdatachannel_java.Native.Event.{Ref}
use libdatachannel_java.Native.World.{Env}
use libdatachannel_java.Logic.Costs.{
  Costs-pure, Costs-look, Costs-free->>=, Costs-free->>, Costs->>-free,
}
use libdatachannel_java.Logic.Costs.Raises.{Raises, rtc-Raises}
use libdatachannel_java.Util.Exceptions.{fail-Raises, wrap_error-Raises}
use libdatachannel_java.Strings.Exceptions.{with_chars-Raises, release_if_string-Raises}
use libdatachannel_java.Channel.Create.Exceptions.{inherit_user_pointer-Raises}
use libdatachannel_java.Track.{add_track, get_track_direction}

module _ {env : Env} where
  pub add_track-Raises : (peer : ℤ) (sdp : Option Ref) → Raises 1 env (add_track peer sdp)
  unfolding add_track
  add_track-Raises peer sdp = with_chars-Raises sdp (fail-Raises _ _) λ c.
      Costs-free->>= (rtc-Raises _) λ n.
        Costs-free->> (inherit_user_pointer-Raises n peer)
          (Costs-free->> (release_if_string-Raises sdp c) (Costs-pure n))

  pub get_track_direction-Raises : (track : ℤ) → Raises 1 env (get_track_direction track)
  unfolding get_track_direction
  get_track_direction-Raises track =
      Costs-free->>= (rtc-Raises _) λ n. Costs->>-free (wrap_error-Raises _ n) (Costs-look _)
