-- ===== src/Peer/Describe/Arguments.antt =====
-- The arguments that the session descriptions of jni/src/native_peer.c give to rtc.
use libdatachannel_java.Prelude.{
  ℕ, ◌≡◌, refl, sym, ap, subst, ◌∙◌, Option, none, some, Option-cases, inl, inr, String, ◌∷◌, arith,
}
use libdatachannel_java.Prelude.Int.{ℤ, pos, negsuc, ◌<ℤ◌}
use libdatachannel_java.Native.Event
use libdatachannel_java.Native.Event.{
  Ptr, Ref, Trace, Exception, RtcCall, rtc_set_local_description, rtc_set_remote_description,
}
use libdatachannel_java.Native.World.{World, Env, M, pure, ◌>>=◌, ◌>>◌, ask}
use libdatachannel_java.Native.Calls
use libdatachannel_java.Logic.Keeps.{Keeps, Keeps->>}
use libdatachannel_java.Logic.Story.{
  story, Reading, unread, chars, Lends, no_string, lent, Reading-Lends, Throws, Throws-native,
  Throws->>, with_chars-run, release_string_utf_chars-story,
}
use libdatachannel_java.Util.{exception_thrown, wrap_error}
use libdatachannel_java.Util.Errors.{code_of, Wrapped, passed, thrown, wrap_error-Wrapped}
use libdatachannel_java.Strings.{release_if_chars}
use libdatachannel_java.Strings.Asking.{release_if_chars-story}
use libdatachannel_java.Peer.Describe.{
  set_local_description, set_remote_from, set_remote_description,
}

-- What rtc answers to a call is returned, or thrown as the exception with its code.
pub data Answered (call : RtcCall) (t : Trace) : ℤ × World → Type 0 where
  accepted : (n : ℕ) {w : World} → story w ≡ Event.rtc call (pos n) ∷ t → Answered call t (pos n, w)
  rejected :
      (n : ℤ) (e : Exception) {w : World}
      → n <ℤ pos 0
      → code_of e ≡ some n
      → story w ≡ Event.throw e ∷ Event.rtc call n ∷ t
      → Answered call t (exception_thrown, w)

-- The outcomes of a function of two strings: one call with what they lend, in order; or nothing but
-- reading and one exception.
pub data Described (first second : Option Ref) (Call : Option Ptr → Option Ptr → RtcCall → Type 0)
    (t : Trace) : ℤ × World → Type 0 where
  asked :
      {t1 t2 : Trace} {r : ℤ × World} (p q : Option Ptr) (c : RtcCall)
      → Call p q c
      → Lends first p t t1
      → Lends second q t1 t2
      → Answered c t2 r
      → Described first second Call t r
  unasked :
      {t' : Trace} {w : World} (e : Exception)
      → Reading t t'
      → story w ≡ Event.throw e ∷ t'
      → Described first second Call t (exception_thrown, w)

abbrev pub Local : ℤ → Option Ptr → Option Ptr → RtcCall → Type 0
Local peer p q c = c ≡ rtc_set_local_description peer p

-- The description itself is never `NULL`.
abbrev pub Remote : ℤ → Option Ptr → Option Ptr → RtcCall → Type 0
Remote peer p q c = (a : Ptr) × (p ≡ some a) × (c ≡ rtc_set_remote_description peer a q)

module _ (msg : String) (env : Env) {call : RtcCall} {t : Trace} where
  after-Answered :
      {n : ℤ} {w : World} {r : ℤ × World} (after : M (Unit {0}))
      → story w ≡ Event.rtc call n ∷ t
      → Keeps story after
      → Wrapped msg n w r
      → Answered call t ((after >> pure r.0) env r.1)
  unfolding ◌>>◌ ◌>>=◌ pure
  after-Answered {n = pos n} after e k (passed l) = accepted n (k.kept env _ ∙ e)
  after-Answered {n = negsuc n} after e k (passed l) = absurd (ground arith)
  after-Answered {n} after e k (thrown x l c _ _) =
      rejected n x l c (k.kept env _ ∙ ap (λ t'. Event.throw x ∷ t') e)

  Wrapped-Answered :
      {n : ℤ} {w : World} {r : ℤ × World}
      → story w ≡ Event.rtc call n ∷ t
      → Wrapped msg n w r
      → Answered call t r
  Wrapped-Answered {n = pos n} e (passed l) = accepted n e
  Wrapped-Answered {n = negsuc n} e (passed l) = absurd (ground arith)
  Wrapped-Answered {n} e (thrown x l c _ _) = rejected n x l c (ap (λ t'. Event.throw x ∷ t') e)

module _ (first second : Option Ref) (Call : Option Ptr → Option Ptr → RtcCall → Type 0) (env : Env)
    {t : Trace} where
  unasked_of :
      {t' : Trace} (r : ℤ × World) (e : Exception)
      → r.0 ≡ exception_thrown
      → Reading t t'
      → story r.1 ≡ Event.throw e ∷ t'
      → Described first second Call t r
  unasked_of (n, w) e q r s = rw q (unasked e r s)

  Throws-Described :
      {m : M ℤ} (w : World)
      → Throws m exception_thrown
      → Reading t (story w)
      → Described first second Call t (m env w)
  Throws-Described w h r = let (e, n, s) = h.thrown env w in unasked_of _ e n r s

set_local_description-Described :
    (peer : ℤ) (type : Option Ref) (env : Env) (w : World)
    → Described type none (Local peer) (story w) (set_local_description peer type env w)
unfolding set_local_description ◌>>=◌ ◌>>◌ ask pure Calls.rtc Calls.get_string_utf_chars
set_local_description-Described peer none env w = asked none none _ refl no_string no_string (
    Wrapped-Answered "rtcSetLocalDescription(peerHandle, NULL)" env refl
      (wrap_error-Wrapped _ _ env _))
set_local_description-Described peer (some s) env w =
    elim (Option-cases (env.get_string_utf_chars w.trace s)) [
      | inl e ↦ rw e (
          Throws-Described (some s) none (Local peer) env _ (Throws-native _) (chars s none unread))
      | inr (c, e) ↦ rw e (
          asked (some c) none _ refl (lent s c) no_string (
            after-Answered "rtcSetLocalDescription(peerHandle, c_type)" env _ refl
              (release_string_utf_chars-story _ _) (wrap_error-Wrapped _ _ env _)))
    ]

module _ (peer : ℤ) (s : Ref) (type : Option Ref) (a : Ptr) (env : Env) {t : Trace} where
  call_with-Described :
      (q : Option Ptr) {t1 : Trace} (w : World)
      → Lends (some s) (some a) t t1
      → Lends type q t1 (story w)
      → Described (some s) type (Remote peer) t (
          (Calls.rtc (rtc_set_remote_description peer a q) >>= λ n.
          wrap_error "rtcSetRemoteDescription(peerHandle, c_sdp, c_type)" n >>= λ status.
          Calls.release_string_utf_chars (some s) (some a)
          >> (release_if_chars type q >> pure status))
            env w)
  unfolding ◌>>=◌ ◌>>◌ ask pure Calls.rtc
  call_with-Described q w l l' =
      asked (some a) q _ (a, refl, refl) l l'
        (after-Answered "rtcSetRemoteDescription(peerHandle, c_sdp, c_type)" env
          (Calls.release_string_utf_chars (some s) (some a) >> release_if_chars type q) refl
          (Keeps->> (release_string_utf_chars-story _ _) (release_if_chars-story _ _))
          (wrap_error-Wrapped _ _ env _))

  set_remote_from-Described :
      (w : World)
      → Lends (some s) (some a) t (story w)
      → Described (some s) type (Remote peer) t (set_remote_from peer s type a env w)
  unfolding set_remote_from
  set_remote_from-Described w l =
      with_chars-run (Described (some s) type (Remote peer) t) type _ _ env w
        (λ r w' e.
          Throws-Described (some s) type (Remote peer) env w'
            (Throws->> (release_string_utf_chars-story _ _) (Throws-native _))
            (subst (Reading t) (sym e) (chars r none (Reading-Lends unread l))))
        (λ q w' l'. call_with-Described q w' l l')

set_remote_description-Described :
    (peer : ℤ) (sdp type : Option Ref) (env : Env) (w : World)
    → Described sdp type (Remote peer) (story w) (set_remote_description peer sdp type env w)
unfolding set_remote_description ◌>>=◌ ask Calls.get_string_utf_chars
set_remote_description-Described peer none type env w =
    Throws-Described none type (Remote peer) env w (Throws-native _) unread
set_remote_description-Described peer (some s) type env w =
    elim (Option-cases (env.get_string_utf_chars w.trace s)) [
      | inl e ↦ rw e (
          Throws-Described (some s) type (Remote peer) env _ (Throws-native _)
            (chars s none unread))
      | inr (c, e) ↦ rw e (set_remote_from-Described peer s type c env _ (lent s c))
    ]

-- In any environment and from any state, for any arguments: rtcSetLocalDescription and
-- rtcSetRemoteDescription read the characters of their strings in order and ask rtc exactly once,
-- with these at their places; an answer that is not negative is returned without an exception, and a
-- negative one is thrown, in one exception that carries it. Or they have only read from Java and
-- throw exactly one exception, which is what a remote description of `NULL` leads to. With an
-- exception they answer EXCEPTION_THROWN.
pub descriptions-Described :
    (peer : ℤ) (sdp type : Option Ref) (env : Env) (w : World)
    → Described type none (Local peer) (story w) (set_local_description peer type env w)
      × Described sdp type (Remote peer) (story w) (set_remote_description peer sdp type env w)
descriptions-Described peer sdp type env w = (
  set_local_description-Described peer type env w,
  set_remote_description-Described peer sdp type env w,
)
