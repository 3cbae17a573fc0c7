-- ===== src/Api/Sessions.antt =====
-- A peer's listener from setup to deletion, with requests in between.
use libdatachannel_java.Prelude.{
  ℕ, ◌+◌, ◌≡◌, refl, ap, ◌∙◌, true, false, Option, none, some, List, [], ◌∷◌, arith,
}
use libdatachannel_java.Prelude.Int.{int_eq_self, ℤ, int_eq}
use libdatachannel_java.Native.Event.{Ptr, Ref, RtcCall, Trace}
use libdatachannel_java.Native.World.{World, Env}
use libdatachannel_java.Logic.Ledger.{
  Resource, block, global_ref, local_ref, count, held, Has, Safe, one_self,
}
use libdatachannel_java.Logic.Moves.{Owns, Safe-Owns, got}
use libdatachannel_java.Logic.Stays.{Linked, linked, opens, pointer_set}
use libdatachannel_java.Util.{err_success}
use libdatachannel_java.Init.{get_jni_env}
use libdatachannel_java.Callback.Lifecycle.{IsListener}
use libdatachannel_java.Peer.Listener.{setup_peer_connection_listener, delete_peer_connection}
use libdatachannel_java.Peer.Listener.Ownership.{
  SetUp, refused, set_up, setup_peer_connection_listener-SetUp, Deleted,
  delete_peer_connection-Deleted,
}
use libdatachannel_java.Api.{Request, Reply, number, boolean, object, serve_all}
use libdatachannel_java.Api.Ownership.{keep, keep_all, serve_all-Moves}
use libdatachannel_java.Api.{Notification, notify}
use libdatachannel_java.Api.Delivery.{Delivered, entered, notify-Delivered}
use libdatachannel_java.Api.Quiet.{serve_all-Stays}

count-got :
    (r : Option Ref) (P : List Resource) (x : Resource)
    → count (got local_ref r P) x ≡ count (got local_ref r []) x + count P x
count-got none P x = omega arith
count-got (some r) P x = omega arith

pub count-keep :
    (r : Reply) (P : List Resource) (x : Resource)
    → count (keep r P) x ≡ count (keep r []) x + count P x
count-keep (number n) P x = omega arith
count-keep (boolean b) P x = omega arith
count-keep (object r) P x = count-got r P x

count-keep_all :
    (rs : List Reply) (P : List Resource) (x : Resource)
    → count (keep_all rs P) x ≡ count (keep_all rs []) x + count P x
count-keep_all [] P x = omega arith
count-keep_all (r ∷ rs) P x =
    omega (arith, count-keep_all rs (keep r P) x, count-keep_all rs (keep r []) x, count-keep r P x)

-- The user pointer of `peer` is `cb`, a held listener for `g`.
pub record Serving (P : List Resource) (rest : Resource → ℕ) (peer : ℤ) (cb : Ptr) (g : Ref)
    (w : World) : Type 0 where
  pub pointer : pointer_set w.trace peer ≡ some cb
  pub listener : IsListener P rest cb g w

pub SetUp-Serving :
    {P : List Resource} {rest : Resource → ℕ} {peer : ℤ} {r : ℤ × World}
    → SetUp P rest peer r
    → r.0 ≡ err_success
    → (cb : Ptr) × (g : Ref) × Serving P rest peer cb g r.1
SetUp-Serving (refused o) e = cc
SetUp-Serving {peer} (set_up cb g p l) e =
    (cb, g, record { pointer = rw (p, int_eq_self peer) refl; listener = l })

module _ (peer : ℤ) (env : Env)
    (distinct : (t : Trace) (c : RtcCall) → opens c ≡ true → int_eq (env.rtc t c) peer ≡ false)
    {rest : Resource → ℕ} (cb : Ptr) (g : Ref) where
  serve_all-Serving :
      (qs : List Request) (w : World)
      → Serving [] rest peer cb g w
      → Serving (keep_all (serve_all qs env w).0 []) rest peer cb g (serve_all qs env w).1
  serve_all-Serving qs w s =
      let e : linked peer (serve_all qs env w).1 ≡ linked peer w =
        (serve_all-Stays distinct qs).stays w in
      let o : Owns (keep_all (serve_all qs env w).0 (block cb ∷ global_ref g ∷ [])) rest
          (serve_all qs env w).1.trace =
        (serve_all-Moves qs).run env w rest s.listener.owns in
      record {
        pointer = ap (λ (l : Linked). l.pointer) e ∙ s.pointer;
        listener = record {
          carries = ap (λ (l : Linked). (l.callbacks cb).instance_ref) e ∙ s.listener.carries;
          owns = record {
            safe = o.safe;
            exact = λ r. omega (
              arith,
              o.exact r,
              count-keep_all (serve_all qs env w).0 (block cb ∷ global_ref g ∷ []) r,
            );
          };
        };
      }

-- The replies to a session, and the world after it: Java sets the listener up and then makes the
-- requests.
abbrev pub session : ℤ → Option Ref → List Request → Env → World → List Reply × World
session peer listener qs env w =
    serve_all qs env (setup_peer_connection_listener peer listener env w).1

-- A structure for the reference `g` is the user pointer of `peer` in `w`; the reference is held; and
-- the notification is delivered through the structure.
pub record Reached (n : Notification) (peer : ℤ) (env : Env) (w w' : World) : Type 0 where
  pub cb : Ptr
  pub g : Ref
  pub pointer : pointer_set w.trace peer ≡ some cb
  pub carries : (w.callbacks cb).instance_ref ≡ some g
  pub lives : Has w.trace (global_ref g)
  pub delivery : Delivered n cb (entered n cb w) (get_jni_env env (entered n cb w)).0 w'

Serving-Reached :
    {P : List Resource} {rest : Resource → ℕ} (n : Notification) (peer : ℤ) (cb : Ptr) (g : Ref)
    (env : Env) (w : World)
    → Serving P rest peer cb g w
    → Reached n peer env w (notify n (pointer_set w.trace peer) env w).1
Serving-Reached n peer cb g env w s = record {
  cb = cb;
  g = g;
  pointer = s.pointer;
  carries = s.listener.carries;
  lives = omega (arith, s.listener.owns.exact (global_ref g), one_self (global_ref g));
  delivery = rw s.pointer (notify-Delivered n cb env w);
}

module _ (peer : ℤ) (listener : Option Ref) (qs : List Request) (env : Env) (w : World) where
  session-Serving :
      Safe w.trace
      → ((t : Trace) (c : RtcCall) → opens c ≡ true → int_eq (env.rtc t c) peer ≡ false)
      → (setup_peer_connection_listener peer listener env w).0 ≡ err_success
      → (cb : Ptr) × (g : Ref) × Serving
          (keep_all (session peer listener qs env w).0 [])
          (held w.trace)
          peer
          cb
          g
          (session peer listener qs env w).1
  session-Serving safe distinct done =
      let (cb, g, s) =
        SetUp-Serving (setup_peer_connection_listener-SetUp peer env listener w (Safe-Owns safe))
          done in
      (cb, g, serve_all-Serving peer env distinct cb g qs _ s)

  -- All calls so far were allowed, no new data channel or track has the peer's handle, and
  -- setupPeerConnectionListener succeeds. Then, after any requests for any handles, a notification
  -- with the user pointer that was last set for the peer is delivered through a structure that
  -- carries a global reference which is held: exactly one call, at that reference and of the method
  -- that the notification stands for, if there is a JNIEnv, and none otherwise.
  pub notify-session :
      (n : Notification)
      → Safe w.trace
      → ((t : Trace) (c : RtcCall) → opens c ≡ true → int_eq (env.rtc t c) peer ≡ false)
      → (setup_peer_connection_listener peer listener env w).0 ≡ err_success
      → Reached n peer env
          (session peer listener qs env w).1
          (notify n
            (pointer_set (session peer listener qs env w).1.trace peer)
            env
            (session peer listener qs env w).1).1
  notify-session n safe distinct done =
      let (cb, g, s) = session-Serving safe distinct done in
      Serving-Reached n peer cb g env (session peer listener qs env w).1 s

  -- All calls so far were allowed, no new data channel or track has the peer's handle,
  -- setupPeerConnectionListener succeeds, any requests follow, and rtcGetUserPointer then answers
  -- with what was last set for the peer. Then rtcDeletePeerConnection makes only allowed calls. If
  -- rtc answers success or invalid, in the end exactly what was held at the start is held, and the
  -- objects that the requests returned; with any other answer the listener still stands.
  pub delete_peer_connection-session :
      Safe w.trace
      → ((t : Trace) (c : RtcCall) → opens c ≡ true → int_eq (env.rtc t c) peer ≡ false)
      → (setup_peer_connection_listener peer listener env w).0 ≡ err_success
      → env.get_user_pointer (session peer listener qs env w).1.trace peer
        ≡ pointer_set (session peer listener qs env w).1.trace peer
      → (cb : Ptr) × (g : Ref) × Deleted
          (keep_all (session peer listener qs env w).0 [])
          (held w.trace)
          cb
          g
          (delete_peer_connection peer env (session peer listener qs env w).1)
  delete_peer_connection-session safe distinct done law =
      let (cb, g, s) = session-Serving safe distinct done in
      (
        cb,
        g,
        delete_peer_connection-Deleted cb g env peer (session peer listener qs env w).1 s.listener
            (law ∙ s.pointer),
      )
