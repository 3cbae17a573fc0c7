-- ===== src/Track/Ownership.antt =====
-- The ledger of jni/src/native_track.c.
use libdatachannel_java.Prelude.{refl, Option, List, arith}
use libdatachannel_java.Prelude.Int.{ℤ}
use libdatachannel_java.Native.Event.{Ref}
use libdatachannel_java.Logic.Ledger.{Resource}
use libdatachannel_java.Logic.Moves.{Moves, Moves-pure, Moves->>=, Moves->>}
use libdatachannel_java.Logic.Rules.{rtc-Moves, look-Moves}
use libdatachannel_java.Util.Ownership.{fail-Moves, wrap_error-Moves}
use libdatachannel_java.Strings.Ownership.{
  count-lend, Lent-lent, with_chars-Moves, release_if_string-Moves,
}
use libdatachannel_java.Channel.Create.Ownership.{inherit_user_pointer-Moves}
use libdatachannel_java.Track.{add_track, get_track_direction}

module _ {P : List Resource} where
  pub add_track-Moves : (peer : ℤ) (sdp : Option Ref) → Moves P (add_track peer sdp) (λ _. P)
  unfolding add_track
  add_track-Moves peer sdp = with_chars-Moves sdp (fail-Moves _ _ refl) λ c p.
      Moves->>=
        (rtc-Moves _ (λ t h. Lent-lent sdp c t p (λ r. omega (arith, h r, count-lend sdp c P r))))
        λ n.
          Moves->> (inherit_user_pointer-Moves n peer)
            (Moves->> (release_if_string-Moves sdp c P p (count-lend sdp c P)) (Moves-pure n refl))

  pub get_track_direction-Moves : (track : ℤ) → Moves P (get_track_direction track) (λ _. P)
  unfolding get_track_direction
  get_track_direction-Moves track =
      Moves->>= (rtc-Moves _ (λ t h. tt)) λ n. Moves->> (wrap_error-Moves _ n) (look-Moves _)
