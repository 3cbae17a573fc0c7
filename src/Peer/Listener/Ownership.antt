-- ===== src/Peer/Listener/Ownership.antt =====
-- Who holds a peer's listener: setupPeerConnectionListener takes it, rtcDeletePeerConnection drops
-- it.
use libdatachannel_java.Prelude.{ℕ, ◌≡◌, refl, Bool, true, false, Option, some, List, ◌∷◌, ◌||◌}
use libdatachannel_java.Prelude.Int.{ℤ, int_eq}
use libdatachannel_java.Native.Event.{
  rtc, get_user_pointer, Trace, Ptr, Ref, rtc_delete_peer_connection, set_user_pointer,
}
use libdatachannel_java.Native.World.{
  World, Env, pure, ◌>>=◌, ◌>>◌, when◌then◌else◌, ask, emit, look,
}
use libdatachannel_java.Native.Calls
use libdatachannel_java.Logic.Ledger.{Resource, block, global_ref}
use libdatachannel_java.Logic.Moves.{Owns, Owns-∷}
use libdatachannel_java.Util.{throw_native_exception, err_success, err_invalid, exception_thrown}
use libdatachannel_java.Util.Ownership.{throw_native_exception-Moves}
use libdatachannel_java.Callback.Lifecycle.{
  IsListener, Allocated, failed, allocated, allocate_callback-Allocated, free_callback-Owns,
}
use libdatachannel_java.Peer.Listener.{
  setup_peer_connection_listener, finish_setup, release_listener, delete_peer_connection,
}

-- The outcome of setupPeerConnectionListener: an error and nothing new is held, or success, the
-- structure is the peer's user pointer from now on, and it and its reference are held.
pub data SetUp (P : List Resource) (rest : Resource → ℕ) (peer : ℤ) : ℤ × World → Type 0 where
  refused : {w : World} → Owns P rest w.trace → SetUp P rest peer (exception_thrown, w)
  set_up :
      (cb : Ptr) (g : Ref) {w : World} {t : Trace}
      → w.trace ≡ set_user_pointer peer (some cb) ∷ t
      → IsListener P rest cb g w
      → SetUp P rest peer (err_success, w)

module _ {P : List Resource} {rest : Resource → ℕ} (peer : ℤ) (env : Env) where
  finish-SetUp :
      {r : Option Ptr × World}
      → Allocated P rest r
      → SetUp P rest peer (finish_setup peer r.0 env r.1)
  unfolding finish_setup ◌>>=◌ ◌>>◌ pure Calls.set_user_pointer emit throw_native_exception
      Calls.throw look
  finish-SetUp (failed {w} o) = refused ((throw_native_exception-Moves {P = P} _).run env w rest o)
  finish-SetUp (allocated cb g l) = set_up cb g refl (record {
    carries = l.carries;
    owns = Owns-∷ _ (set_user_pointer peer (some cb)) l.owns tt (λ r. refl);
  })

  -- Where `P` and the rest are held, setupPeerConnectionListener makes only allowed calls and ends in
  -- one of two ways. It answers EXCEPTION_THROWN and holds nothing new; or it answers
  -- RTC_ERR_SUCCESS, its last call made a structure the peer's user pointer, and exactly that
  -- structure and the global reference that it carries are held besides.
  pub setup_peer_connection_listener-SetUp :
      (listener : Option Ref) (w : World)
      → Owns P rest w.trace
      → SetUp P rest peer (setup_peer_connection_listener peer listener env w)
  unfolding setup_peer_connection_listener ◌>>=◌
  setup_peer_connection_listener-SetUp listener w o =
      finish-SetUp (allocate_callback-Allocated env w listener o)

-- `RTC_ERR_SUCCESS` or `RTC_ERR_INVALID`
abbrev pub frees : ℤ → Bool
frees result = int_eq result err_success || int_eq result err_invalid

-- The outcome of rtcDeletePeerConnection for a peer whose user pointer is the listener `cb`.
pub data Deleted (P : List Resource) (rest : Resource → ℕ) (cb : Ptr) (g : Ref)
    : ℤ × World → Type 0 where
  freed : {n : ℤ} {w : World} → frees n ≡ true → Owns P rest w.trace → Deleted P rest cb g (n, w)
  kept :
      {n : ℤ} {w : World} → frees n ≡ false → IsListener P rest cb g w → Deleted P rest cb g (n, w)

module _ {P : List Resource} {rest : Resource → ℕ} (cb : Ptr) (g : Ref) (env : Env) where
  release-Deleted :
      (n : ℤ) (w : World) (b : Bool)
      → frees n ≡ b
      → IsListener P rest cb g w
      → Deleted P rest cb g (n, (release_listener n (some cb) env w).1)
  unfolding release_listener when◌then◌else◌ pure
  release-Deleted n w true e l = rw e (freed e (free_callback-Owns env w cb g l))
  release-Deleted n w false e l = rw e (kept e l)

  -- Where the peer's user pointer is the structure `cb`, which is held and carries the global
  -- reference `g`, held too, rtcDeletePeerConnection makes only allowed calls. If rtc answers
  -- RTC_ERR_SUCCESS or RTC_ERR_INVALID, the structure and the reference are given back and exactly
  -- `P` and the rest are held; with any other answer the structure still stands and carries `g`.
  pub delete_peer_connection-Deleted :
      (peer : ℤ) (w : World)
      → IsListener P rest cb g w
      → env.get_user_pointer w.trace peer ≡ some cb
      → Deleted P rest cb g (delete_peer_connection peer env w)
  unfolding delete_peer_connection ◌>>=◌ ◌>>◌ pure Calls.get_user_pointer Calls.rtc ask
  delete_peer_connection-Deleted peer w l e =
      let asked : World = record w { trace = get_user_pointer peer (some cb) ∷ w.trace } in
      let n : ℤ = env.rtc asked.trace (rtc_delete_peer_connection peer) in
      let deleted : World = record asked {
        trace = rtc (rtc_delete_peer_connection peer) n ∷ asked.trace;
      } in
      rw e (
        release-Deleted n deleted (frees n) refl (record {
          carries = l.carries;
          owns =
              Owns-∷ (block cb ∷ global_ref g ∷ P) (rtc (rtc_delete_peer_connection peer) n)
                (Owns-∷ (block cb ∷ global_ref g ∷ P) (get_user_pointer peer (some cb)) l.owns tt
                  (λ r. refl))
                tt (λ r. refl);
        }))
