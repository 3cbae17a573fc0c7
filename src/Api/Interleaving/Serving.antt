-- ===== src/Api/Interleaving/Serving.antt =====
-- A peer's listener while Java and rtc take turns.
use libdatachannel_java.Prelude.{
  ℕ, ◌≡◌, ap, subst, sym, ◌∙◌, true, false, Option, some, List, [], ◌∷◌, arith,
}
use libdatachannel_java.Prelude.Int.{ℤ, int_eq}
use libdatachannel_java.Native.Event.{Ptr, Ref, RtcCall, Trace, Upcall}
use libdatachannel_java.Native.World.{World, Env, pure, ◌>>=◌, ◌>>◌}
use libdatachannel_java.Logic.Ledger.{Resource, block, global_ref, held, Safe}
use libdatachannel_java.Logic.Moves.{Safe-Owns}
use libdatachannel_java.Logic.Keeps.{upcalls}
use libdatachannel_java.Logic.Stays.{Linked, linked, opens, pointer_set}
use libdatachannel_java.Util.{err_success}
use libdatachannel_java.Peer.Listener.{setup_peer_connection_listener, delete_peer_connection}
use libdatachannel_java.Peer.Listener.Ownership.{
  Deleted, setup_peer_connection_listener-SetUp, delete_peer_connection-Deleted,
}
use libdatachannel_java.Api.{Request, serve, Notification, notify}
use libdatachannel_java.Api.Ownership.{keep, keep_all, serve-Moves}
use libdatachannel_java.Api.Quiet.{serve-Stays}
use libdatachannel_java.Api.Sessions.{count-keep, Serving, SetUp-Serving}
use libdatachannel_java.Api.Delivery.{Delivered, silent, delivered, entered_same, notify-Delivered}
use libdatachannel_java.Api.Interleaving.{Turn, request, notification, notify_peer, run}
use libdatachannel_java.Api.Interleaving.Callbacks.{notify-Serving}

-- The second list is the first and newer calls, all at the reference `g`.
pub data CallsAt (g : Ref) (l : List (Option Ref × Upcall))
    : List (Option Ref × Upcall) → Type 0 where
  no_calls : CallsAt g l l
  one_more :
      {l' : List (Option Ref × Upcall)} (u : Upcall)
      → CallsAt g l l'
      → CallsAt g l ((some g, u) ∷ l')

CallsAt-trans :
    {g : Ref} {a b c : List (Option Ref × Upcall)} → CallsAt g a b → CallsAt g b c → CallsAt g a c
CallsAt-trans p no_calls = p
CallsAt-trans p (one_more u q) = one_more u (CallsAt-trans p q)

Delivered-CallsAt :
    {n : Notification} {cb : Ptr} {g : Ref} {w w' : World} {e : Option Ref}
    → Delivered n cb w e w'
    → (w.callbacks cb).instance_ref ≡ some g
    → CallsAt g (upcalls w.trace) (upcalls w'.trace)
Delivered-CallsAt {g = g} {w = w} (silent h) c =
    subst (CallsAt g (upcalls w.trace)) (sym h) no_calls
Delivered-CallsAt {g = g} {w = w} (delivered u a h) c =
    subst (CallsAt g (upcalls w.trace)) (sym (h ∙ ap (λ r. (r, u) ∷ upcalls w.trace) c))
      (one_more u no_calls)

notify-CallsAt :
    (n : Notification) (cb : Ptr) (g : Ref) (env : Env) (w : World)
    → (w.callbacks cb).instance_ref ≡ some g
    → CallsAt g (upcalls w.trace) (upcalls (notify n (some cb) env w).1.trace)
notify-CallsAt n cb g env w c =
    let (_, calls, callbacks) = entered_same n cb w in
    subst (λ l. CallsAt g l (upcalls (notify n (some cb) env w).1.trace)) calls
      (Delivered-CallsAt (notify-Delivered n cb env w)
        (ap (λ f. (f cb).instance_ref) callbacks ∙ c))

-- The listener stands, and every call since was made at its reference.
pub record Undisturbed (P : List Resource) (rest : Resource → ℕ) (peer : ℤ) (cb : Ptr) (g : Ref)
    (w w' : World) : Type 0 where
  pub serving : Serving P rest peer cb g w'
  pub calls : CallsAt g (upcalls w.trace) (upcalls w'.trace)

module _ (peer : ℤ) (env : Env) (posix : env.is_windows ≡ false)
    (distinct : (t : Trace) (c : RtcCall) → opens c ≡ true → int_eq (env.rtc t c) peer ≡ false)
    {rest : Resource → ℕ} (cb : Ptr) (g : Ref) where
  request-Undisturbed :
      {P : List Resource} (q : Request) (w : World)
      → Serving P rest peer cb g w
      → Undisturbed (keep (serve q env w).0 P) rest peer cb g w (serve q env w).1
  request-Undisturbed {P} q w s =
      let e : linked peer (serve q env w).1 ≡ linked peer w = (serve-Stays distinct q).stays w in
      let o = (serve-Moves {P = block cb ∷ global_ref g ∷ P} q).run env w rest s.listener.owns in
      record {
        serving = record {
          pointer = ap (λ (l : Linked). l.pointer) e ∙ s.pointer;
          listener = record {
            carries = ap (λ (l : Linked). (l.callbacks cb).instance_ref) e ∙ s.listener.carries;
            owns = record {
              safe = o.safe;
              exact = λ r. omega (
                arith,
                o.exact r,
                count-keep (serve q env w).0 (block cb ∷ global_ref g ∷ P) r,
                count-keep (serve q env w).0 P r,
              );
            };
          };
        };
        calls = subst (CallsAt g (upcalls w.trace)) (sym (ap (λ (l : Linked). l.calls) e)) no_calls;
      }

  notification-Undisturbed :
      {P : List Resource} (n : Notification) (w : World)
      → Serving P rest peer cb g w
      → Undisturbed P rest peer cb g w (notify_peer peer n env w).1
  unfolding notify_peer
  notification-Undisturbed n w s = rw s.pointer (record {
    serving = notify-Serving peer cb g env posix n w s;
    calls = notify-CallsAt n cb g env w s.listener.carries;
  })

  Undisturbed-trans :
      {Q : List Resource} {w w' w'' : World}
      → CallsAt g (upcalls w.trace) (upcalls w'.trace)
      → Undisturbed Q rest peer cb g w' w''
      → Undisturbed Q rest peer cb g w w''
  Undisturbed-trans c u = record { serving = u.serving; calls = CallsAt-trans c u.calls }

  run-Undisturbed :
      (ts : List Turn) {P : List Resource} (w : World)
      → Serving P rest peer cb g w
      → Undisturbed (keep_all (run peer ts env w).0 P) rest peer cb g w (run peer ts env w).1
  unfolding run ◌>>=◌ ◌>>◌ pure
  run-Undisturbed [] w s = record { serving = s; calls = no_calls }
  run-Undisturbed (request q ∷ ts) {P} w s =
      let u = request-Undisturbed q w s in
      Undisturbed-trans u.calls (run-Undisturbed ts {P = keep (serve q env w).0 P} _ u.serving)
  run-Undisturbed (notification n ∷ ts) w s =
      let u = notification-Undisturbed n w s in
      Undisturbed-trans u.calls (run-Undisturbed ts _ u.serving)

-- Where the build is not for Windows, all calls made so far were allowed, no new data channel or
-- track has the peer's handle, and setupPeerConnectionListener succeeds with the structure `cb` and
-- the global reference `g`: let Java make any requests and rtc any notifications with the peer's
-- user pointer, in any order. Then all calls made are allowed, `cb` is still the user pointer of the
-- peer, it is held and carries `g`, which is held; exactly what was held before and what the requests
-- returned is held besides; and every listener call of all notifications was made at `g`.
pub run-Serving :
    (peer : ℤ) (listener : Option Ref) (ts : List Turn) (env : Env) (w : World)
    → env.is_windows ≡ false
    → Safe w.trace
    → ((t : Trace) (c : RtcCall) → opens c ≡ true → int_eq (env.rtc t c) peer ≡ false)
    → (setup_peer_connection_listener peer listener env w).0 ≡ err_success
    → (cb : Ptr) × (g : Ref) × Undisturbed
        (keep_all (run peer ts env (setup_peer_connection_listener peer listener env w).1).0 [])
        (held w.trace)
        peer
        cb
        g
        (setup_peer_connection_listener peer listener env w).1
        (run peer ts env (setup_peer_connection_listener peer listener env w).1).1
run-Serving peer listener ts env w posix safe distinct done =
    let (cb, g, s) =
      SetUp-Serving (setup_peer_connection_listener-SetUp peer env listener w (Safe-Owns safe))
        done in
    (cb, g, run-Undisturbed peer env posix distinct cb g ts _ s)

-- Where the build is not for Windows, all calls made so far were allowed, no new data channel or
-- track has the peer's handle, setupPeerConnectionListener succeeds, requests and notifications
-- follow in any order, and rtcGetUserPointer then answers with what was last set for the peer:
-- rtcDeletePeerConnection makes only allowed calls. If rtc answers success or invalid, in the end
-- exactly what was held at the start is held, and the objects that the requests returned; with any
-- other answer the listener still stands.
pub delete_peer_connection-run :
    (peer : ℤ) (listener : Option Ref) (ts : List Turn) (env : Env) (w : World)
    → env.is_windows ≡ false
    → Safe w.trace
    → ((t : Trace) (c : RtcCall) → opens c ≡ true → int_eq (env.rtc t c) peer ≡ false)
    → (setup_peer_connection_listener peer listener env w).0 ≡ err_success
    → env.get_user_pointer
        (run peer ts env (setup_peer_connection_listener peer listener env w).1).1.trace
        peer
      ≡ pointer_set
          (run peer ts env (setup_peer_connection_listener peer listener env w).1).1.trace
          peer
    → (cb : Ptr) × (g : Ref) × Deleted
        (keep_all (run peer ts env (setup_peer_connection_listener peer listener env w).1).0 [])
        (held w.trace)
        cb
        g
        (delete_peer_connection peer env
          (run peer ts env (setup_peer_connection_listener peer listener env w).1).1)
delete_peer_connection-run peer listener ts env w posix safe distinct done law =
    let (cb, g, u) = run-Serving peer listener ts env w posix safe distinct done in
    (
      cb,
      g,
      delete_peer_connection-Deleted cb g env peer _ u.serving.listener (law ∙ u.serving.pointer),
    )
