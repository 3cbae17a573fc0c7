-- ===== src/Peer/Create/Arguments.antt =====
-- The arguments that rtcCreatePeerConnection of jni/src/native_peer.c gives to rtc.
use libdatachannel_java.Prelude.{◌≡◌, sym, subst, Option, none, some, ◌∷◌}
use libdatachannel_java.Prelude.Int.{ℤ}
use libdatachannel_java.Native.Event
use libdatachannel_java.Native.Event.{
  Ptr, Ref, RtcField, Trace, Exception, rtc_create_peer_connection,
}
use libdatachannel_java.Native.World.{World, Env, M, read, pure, ◌>>=◌, ◌>>◌, ask}
use libdatachannel_java.Native.Calls
use libdatachannel_java.Logic.Keeps.{Keeps, Keeps-pure, Keeps->>}
use libdatachannel_java.Logic.Story.{
  story, Reading, chars, Lends, Reading-Lends, Throws, Throws-native, Throws->>, with_chars-run,
  release_if_string-story,
}
use libdatachannel_java.Util.{exception_thrown}
use libdatachannel_java.Strings.{release_if_string}
use libdatachannel_java.Peer.Servers.{IceServers, release_ice_servers}
use libdatachannel_java.Peer.Servers.Reading.{
  Served, Served-Reading, Outcome, good, bad, get_ice_servers-Outcome,
}
use libdatachannel_java.Peer.Servers.Silence.{release_ice_servers-story}
use libdatachannel_java.Peer.Create.{
  PeerOptions, configuration, create_with, no_proxy_chars, no_bind_chars, create_from,
  create_peer_connection,
}

-- The outcomes of rtcCreatePeerConnection, from what was told before. It has read the ICE servers
-- in order, then the proxy server and then the bind address, asked rtc once, with these and the
-- options, and answers what rtc answered; or it has only read from Java, thrown one exception and
-- answers EXCEPTION_THROWN.
pub data Created (field : RtcField → ℤ → ℤ) (o : PeerOptions)
    (array proxy_server bind_address : Option Ref) (t : Trace) : ℤ × World → Type 0 where
  created :
      {t1 t2 t3 : Trace} {w : World} (s : IceServers) (p b : Option Ptr) (n : ℤ)
      → Served array s t t1
      → Lends proxy_server p t1 t2
      → Lends bind_address b t2 t3
      → story w ≡ Event.rtc (rtc_create_peer_connection (configuration field o s p b)) n ∷ t3
      → Created field o array proxy_server bind_address t (n, w)
  failed :
      {t' : Trace} {w : World} (e : Exception)
      → Reading t t'
      → story w ≡ Event.throw e ∷ t'
      → Created field o array proxy_server bind_address t (exception_thrown, w)

after-story :
    (proxy_server bind_address : Option Ref) (s : IceServers) (p b : Option Ptr) (n : ℤ)
    → Keeps story (
        release_if_string proxy_server p
        >> (release_if_string bind_address b >> (release_ice_servers s >> pure n)))
after-story proxy_server bind_address s p b n =
    Keeps->> (release_if_string-story _ _) (
      Keeps->> (release_if_string-story _ _)
        (Keeps->> (release_ice_servers-story s) (Keeps-pure n)))

module _ (o : PeerOptions) (array proxy_server bind_address : Option Ref) (env : Env)
    {t : Trace} where
  failed_of :
      {t' : Trace} (r : ℤ × World) (e : Exception)
      → r.0 ≡ exception_thrown
      → Reading t t'
      → story r.1 ≡ Event.throw e ∷ t'
      → Created env.to_field o array proxy_server bind_address t r
  failed_of (n, w) e q r s = rw q (failed e r s)

  Throws-Created :
      {m : M ℤ} (w : World)
      → Throws m exception_thrown
      → Reading t (story w)
      → Created env.to_field o array proxy_server bind_address t (m env w)
  Throws-Created w h r = let (e, n, s) = h.thrown env w in failed_of _ e n r s

  create_with-Created :
      {t1 t2 : Trace} (s : IceServers) (p b : Option Ptr) (w : World)
      → Served array s t t1
      → Lends proxy_server p t1 t2
      → Lends bind_address b t2 (story w)
      → Created env.to_field o array proxy_server bind_address t
          (create_with o proxy_server bind_address s p b env w)
  unfolding create_with read ◌>>=◌ ◌>>◌ pure ask Calls.rtc
  create_with-Created s p b w v l l' =
      let n : ℤ =
        env.rtc w.trace (rtc_create_peer_connection (configuration env.to_field o s p b)) in
      created s p b n v l l' ((after-story proxy_server bind_address s p b n).kept env _)

  create_from-Created :
      (s : IceServers) (w : World)
      → Served array s t (story w)
      → Created env.to_field o array proxy_server bind_address t
          (create_from o proxy_server bind_address s env w)
  unfolding create_from no_proxy_chars no_bind_chars
  create_from-Created s w v =
      with_chars-run (Created env.to_field o array proxy_server bind_address t) proxy_server _ _ env
        w
        (λ r w' e.
          Throws-Created w' (Throws->> (release_ice_servers-story s) (Throws-native _))
            (subst (Reading t) (sym e) (chars r none (Served-Reading v))))
        (λ p w' l.
          with_chars-run (Created env.to_field o array proxy_server bind_address t) bind_address _ _
            env w'
            (λ r w'' e.
              Throws-Created w''
                (Throws->> (release_if_string-story _ _)
                  (Throws->> (release_ice_servers-story s) (Throws-native _)))
                (subst (Reading t) (sym e) (chars r none (Reading-Lends (Served-Reading v) l))))
            (λ b w'' l'. create_with-Created s p b w'' v l l'))

  from_servers :
      (r : Option IceServers × World)
      → Outcome t (λ s. Served array s t) r
      → Created env.to_field o array proxy_server bind_address t (
          (elim r.0 as (λ _. M ℤ) [
            | none ↦ pure exception_thrown
            | some s ↦ create_from o proxy_server bind_address s
          ])
            env r.1)
  unfolding pure
  from_servers r (good s g) = create_from-Created s _ g
  from_servers r (bad e b s) = failed e b s

-- In any environment and from any state: rtcCreatePeerConnection reads the elements of the array of
-- ICE servers from the first to the last, each with its characters, then the characters of the proxy
-- server and of the bind address, and then asks rtc once, with the characters in this order, as many
-- ICE servers as the array has elements, `NULL` for a string that is `NULL`, and the options, each
-- converted to the type of its field. It answers what rtc answers and throws nothing. Or it throws exactly one exception, has not asked rtc
-- and answers EXCEPTION_THROWN.
pub create_peer_connection-Created :
    (o : PeerOptions) (array proxy_server bind_address : Option Ref) (env : Env) (w : World)
    → Created env.to_field o array proxy_server bind_address
        (story w)
        (create_peer_connection o proxy_server bind_address array env w)
unfolding create_peer_connection ◌>>=◌
create_peer_connection-Created o array proxy_server bind_address env w =
    from_servers o array proxy_server bind_address env _ (get_ice_servers-Outcome array env w)
