-- ===== src/Track/Quiet.antt =====
-- The listeners and user pointers under jni/src/native_track.c.
use libdatachannel_java.Prelude.{◌≡◌, refl, true, false, Option}
use libdatachannel_java.Prelude.Int.{ℤ, int_eq}
use libdatachannel_java.Native.Event.{Ref, RtcCall, Trace, rtc_add_track}
use libdatachannel_java.Native.World.{Env}
use libdatachannel_java.Logic.Stays.{
  opens, Stays, Stays-pure, Stays->>=, Stays->>, Stays-look, rtc-Stays,
}
use libdatachannel_java.Util.Quiet.{fail-Stays, wrap_error-Stays}
use libdatachannel_java.Strings.Quiet.{with_chars-Stays, release_if_string-Stays}
use libdatachannel_java.Channel.Create.Quiet.{inherit_user_pointer-Stays, opening-Stays}
use libdatachannel_java.Track.{add_track, get_track_direction}

pub get_track_direction-Stays :
    {env : Env} {peer : ℤ} (track : ℤ) → Stays env peer (get_track_direction track)
unfolding get_track_direction
get_track_direction-Stays track =
    Stays->>= (rtc-Stays _) λ n. Stays->> (wrap_error-Stays _ n) (Stays-look _)

module _ {env : Env} {peer : ℤ}
    (distinct : (t : Trace) (c : RtcCall)
      → opens c ≡ true
      → int_eq (env.rtc t c) peer ≡ false) where
  pub add_track-Stays : (h : ℤ) (sdp : Option Ref) → Stays env peer (add_track h sdp)
  unfolding add_track
  add_track-Stays h sdp = with_chars-Stays sdp (fail-Stays _ _) λ c.
      opening-Stays (rtc_add_track h c) _ (λ t. distinct t _ refl)
        λ n e.
          Stays->> (inherit_user_pointer-Stays n h e)
            (Stays->> (release_if_string-Stays sdp c) (Stays-pure n))
