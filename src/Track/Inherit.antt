-- ===== src/Track/Inherit.antt =====
-- The user pointer of a new track, in rtcAddTrack of jni/src/native_track.c.
use libdatachannel_java.Prelude.{◌≡◌, Bool-cases, inl, inr, Option, none, some, ◌∷◌}
use libdatachannel_java.Prelude.Int.{ℤ, pos, int_le, int_eq_self}
use libdatachannel_java.Native.Event.{Ptr, Ref, Trace, rtc, rtc_add_track}
use libdatachannel_java.Native.World.{World, Env, pure, ◌>>=◌, ◌>>◌, ask, emit}
use libdatachannel_java.Native.Calls
use libdatachannel_java.Logic.Stays.{pointer_set}
use libdatachannel_java.Strings.{release_if_string}
use libdatachannel_java.Channel.Create.{inherit_user_pointer}
use libdatachannel_java.Channel.Create.Inherit.{
  Inherited, refused, inherited, fail-Inherited, with_chars-Inherited,
}
use libdatachannel_java.Track.{add_track}

handle-Inherited :
    {peer n : ℤ} {p : Option Ptr} {w : World} → pointer_set w.trace n ≡ p → Inherited peer p (n, w)
handle-Inherited {n} e = elim (Bool-cases (int_le (pos 0) n)) [
  | inl h ↦ inherited h e
  | inr h ↦ refused h
]

module _ (peer : ℤ) (env : Env)
    (law : (t : Trace) → env.get_user_pointer t peer ≡ pointer_set t peer) where
  added-Inherited :
      (n : ℤ) (sdp : Option Ref) (c : Option Ptr) (w : World)
      → Inherited peer
          (pointer_set w.trace peer)
          ((inherit_user_pointer n peer >> (release_if_string sdp c >> pure n)) env w)
  unfolding inherit_user_pointer release_if_string ◌>>=◌ ◌>>◌ pure Calls.get_user_pointer
      Calls.set_user_pointer Calls.release_string_utf_chars ask emit
  added-Inherited n none c w = handle-Inherited (rw (int_eq_self n) (law w.trace))
  added-Inherited n (some s) c w = handle-Inherited (rw (int_eq_self n) (law w.trace))

  -- Where rtcGetUserPointer answers with what was last set for the peer, rtcAddTrack answers with a
  -- negative code, or with a handle whose user pointer is the peer's from now on.
  pub add_track-Inherited :
      (sdp : Option Ref) (w : World)
      → Inherited peer (pointer_set w.trace peer) (add_track peer sdp env w)
  unfolding add_track ◌>>=◌ Calls.rtc ask
  add_track-Inherited sdp w =
      with_chars-Inherited peer env law _ _ (λ p w'. fail-Inherited peer env law p _ w')
        (λ c w'. added-Inherited (env.rtc w'.trace (rtc_add_track peer c)) sdp c (record w' {
          trace = rtc (rtc_add_track peer c) (env.rtc w'.trace (rtc_add_track peer c)) ∷ w'.trace;
        }))
        sdp w
