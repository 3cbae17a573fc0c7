-- ===== src/Strings/Asking.antt =====
-- Functions that borrow the characters of two nullable strings for one call of rtc.
use libdatachannel_java.Prelude.{◌≡◌, sym, subst, Option, none, some, ◌∷◌}
use libdatachannel_java.Prelude.Int.{ℤ}
use libdatachannel_java.Native.Event
use libdatachannel_java.Native.Event.{Ptr, Ref, Trace, Exception, RtcCall}
use libdatachannel_java.Native.World.{World, Env, M}
use libdatachannel_java.Logic.Keeps.{Keeps, Keeps-pure}
use libdatachannel_java.Logic.Story.{
  story, Reading, unread, chars, Lends, Reading-Lends, Throws, with_chars-run,
  release_string_utf_chars-story,
}
use libdatachannel_java.Util.{exception_thrown}
use libdatachannel_java.Strings.{with_chars, release_if_chars}

-- The outcomes, from what was told before: the strings are read one after the other, rtc is asked
-- once, with their characters, and its answer is returned; or nothing but reading and one exception.
pub data Asked (first second : Option Ref) (call : Option Ptr → Option Ptr → RtcCall) (t : Trace)
    : ℤ × World → Type 0 where
  asked :
      {t1 t2 : Trace} {w : World} (p q : Option Ptr) (n : ℤ)
      → Lends first p t t1
      → Lends second q t1 t2
      → story w ≡ Event.rtc (call p q) n ∷ t2
      → Asked first second call t (n, w)
  unasked :
      {t' : Trace} {w : World} (e : Exception)
      → Reading t t'
      → story w ≡ Event.throw e ∷ t'
      → Asked first second call t (exception_thrown, w)

pub release_if_chars-story : (s : Option Ref) (p : Option Ptr) → Keeps story (release_if_chars s p)
unfolding release_if_chars
release_if_chars-story s none = Keeps-pure tt
release_if_chars-story s (some p) = release_string_utf_chars-story _ _

module _ (first second : Option Ref) (call : Option Ptr → Option Ptr → RtcCall) (env : Env)
    {t : Trace} where
  unasked_of :
      {t' : Trace} (r : ℤ × World) (e : Exception)
      → r.0 ≡ exception_thrown
      → Reading t t'
      → story r.1 ≡ Event.throw e ∷ t'
      → Asked first second call t r
  unasked_of (n, w) e q r s = rw q (unasked e r s)

  Throws-Asked :
      {m : M ℤ} (w : World)
      → Throws m exception_thrown
      → Reading t (story w)
      → Asked first second call t (m env w)
  Throws-Asked w h r = let (e, n, s) = h.thrown env w in unasked_of _ e n r s

  pub with_chars-Asked :
      (failed : M ℤ) (failed_between : Option Ptr → M ℤ) (next : (p q : Option Ptr) → M ℤ)
      (w : World)
      → t ≡ story w
      → Throws failed exception_thrown
      → ((p : Option Ptr) → Throws (failed_between p) exception_thrown)
      → ((p q : Option Ptr) (t1 : Trace) (w' : World)
          → Lends first p t t1
          → Lends second q t1 (story w')
          → Asked first second call t (next p q env w'))
      → Asked first second call t
          (with_chars first failed (λ p. with_chars second (failed_between p) (next p)) env w)
  with_chars-Asked failed failed_between next w e h k l =
      with_chars-run (Asked first second call t) first _ _ env w
        (λ r w' s.
          Throws-Asked w' h (subst (Reading t) (sym s) (chars r none (subst (Reading t) e unread))))
        (λ p w' a.
          let a' : Lends first p t (story w') = subst (λ x. Lends first p x (story w')) (sym e) a in
          with_chars-run (Asked first second call t) second _ _ env w'
            (λ r w'' s.
              Throws-Asked w'' (k p)
                (subst (Reading t) (sym s) (chars r none (Reading-Lends unread a'))))
            (λ q w'' b. l p q _ w'' a' b))
