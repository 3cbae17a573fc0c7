-- ===== src/Api/Interleaving/Callbacks.antt =====
-- What a notification leaves alone where the build is not for Windows.
use libdatachannel_java.Prelude.{
  ℕ, ◌≡◌, refl, ap, ◌∙◌, Bool, true, false, Option, none, some, List, ◌∷◌, if◌then◌else◌, arith,
}
use libdatachannel_java.Prelude.Int.{ℤ, int_eq, int_lt, pos}
use libdatachannel_java.Native.Event
use libdatachannel_java.Native.Event.{Ptr, Ref, Trace, Upcall}
use libdatachannel_java.Native.World.{
  World, Env, M, pure, ◌>>=◌, ◌>>◌, when◌then◌else◌, emit, ask, when-run,
}
use libdatachannel_java.Native.Calls
use libdatachannel_java.Native.Memory.{load_callback}
use libdatachannel_java.Logic.Ledger.{Resource, block, global_ref, local_ref, Has, one_self}
use libdatachannel_java.Logic.Moves.{Owns-∷, Owns-Holds, Holds, Moves, Moves->>=, Moves->>, got}
use libdatachannel_java.Logic.Rules.{
  new_string_utf-Moves, new_direct_byte_buffer-Moves, load_callback-Moves, upcall-Moves,
  delete_local_ref-Moves, delete_null-Moves, when-Moves,
}
use libdatachannel_java.Logic.Stays.{pointer_set}
use libdatachannel_java.Init.{get_jni_env}
use libdatachannel_java.Init.Search.{Unseen, get_jni_env-Unseen}
use libdatachannel_java.Callback.{dispatch_jni}
use libdatachannel_java.Peer.Handlers
use libdatachannel_java.Channel.Handlers as ChannelHandlers
use libdatachannel_java.Api.Sessions.{Serving}
use libdatachannel_java.Api.{
  Notification, data_channel_opened, track_opened, channel_message, notify,
}

dropped-Moves :
    {P : List Resource} (o : Option Ref)
    → Moves (got local_ref o P) (Calls.delete_local_ref o) (λ _. P)
dropped-Moves none = delete_null-Moves
dropped-Moves (some r) = delete_local_ref-Moves r _ (λ r. refl)

block-Has :
    (cb : Ptr) (Q : List Resource) (o : Option Ref) (t : Trace)
    → Holds (got local_ref o (block cb ∷ Q)) t
    → Has t (block cb)
block-Has cb Q none t h = omega (arith, h (block cb), one_self (block cb))
block-Has cb Q (some r) t h = omega (arith, h (block cb), one_self (block cb))

-- The payload of a message is a local reference of the handler, which gives it back.
module _ (c : ℤ) (m : Ptr) (cb : Ptr) {Q : List Resource} where
  call-Moves :
      (o : Option Ref) (u : Upcall)
      → Moves
          (got local_ref o (block cb ∷ Q))
          (load_callback cb >>= λ c. Calls.upcall c.instance_ref u >> Calls.delete_local_ref o)
          (λ _. block cb ∷ Q)
  call-Moves o u =
      Moves->>= (load_callback-Moves cb (block-Has cb Q o))
        λ c. Moves->> (upcall-Moves c.instance_ref u) (dropped-Moves o)

  deliver-Moves :
      (size : ℤ) → Moves (block cb ∷ Q) (ChannelHandlers.deliver c m size cb) (λ _. block cb ∷ Q)
  unfolding ChannelHandlers.deliver ChannelHandlers.deliver_text ChannelHandlers.deliver_binary
  deliver-Moves size =
      when-Moves _ (Moves->>= (new_string_utf-Moves m) λ o. call-Moves o _)
        (Moves->>= (new_direct_byte_buffer-Moves m size) λ o. call-Moves o _)

deliver_same :
    (peer : ℤ) (cb : Ptr) (env : Env) (c : ℤ) (m : Ptr) (size : ℤ) (w : World)
    → ((ChannelHandlers.deliver c m size cb env w).1.callbacks ≡ w.callbacks)
      × (pointer_set (ChannelHandlers.deliver c m size cb env w).1.trace peer
          ≡ pointer_set w.trace peer)
unfolding ChannelHandlers.deliver ChannelHandlers.deliver_text ChannelHandlers.deliver_binary ◌>>=◌
    ◌>>◌ Calls.new_string_utf Calls.new_direct_byte_buffer Calls.upcall Calls.delete_local_ref
    load_callback ask emit
deliver_same peer cb env c m size w =
    when-run
      (λ (r : Unit {0} × World).
        (r.1.callbacks ≡ w.callbacks) × (pointer_set r.1.trace peer ≡ pointer_set w.trace peer))
      (int_lt size (pos 0)) _ _ env w (λ h. (refl, refl)) (λ h. (refl, refl))

kept_pointer : {cb p : Option Ptr} (b : Bool) → p ≡ cb → (if b then cb else p) ≡ cb
kept_pointer true e = refl
kept_pointer false e = e

module _ {P : List Resource} {rest : Resource → ℕ} (peer : ℤ) (cb : Ptr) (g : Ref) (env : Env) where
  Unseen-Serving :
      {w w' : World} → Unseen w w' → Serving P rest peer cb g w → Serving P rest peer cb g w'
  Unseen-Serving u s = record {
    pointer = u.pointers peer ∙ s.pointer;
    listener = record {
      carries = ap (λ f. (f cb).instance_ref) u.callbacks ∙ s.listener.carries;
      owns = u.owns s.listener.owns;
    };
  }

  call-Serving :
      (e : Option Ref) (u : Upcall) (w : World)
      → Serving P rest peer cb g w
      → Serving P rest peer cb g
          ((elim e as (λ _. M (Unit {0})) [
            | none ↦ pure tt
            | some _ ↦ (load_callback cb >>= λ c. Calls.upcall c.instance_ref u)
          ])
            env w).1
  unfolding pure ◌>>=◌ load_callback emit Calls.upcall
  call-Serving none u w s = s
  call-Serving (some e) u w s = record {
    pointer = s.pointer;
    listener = record {
      carries = s.listener.carries;
      owns =
          let Q : List Resource = block cb ∷ global_ref g ∷ P in
          let loaded =
            Owns-∷ {P = Q} Q (Event.load cb) s.listener.owns
              (block-Has cb (global_ref g ∷ P) none w.trace (Owns-Holds s.listener.owns))
              (λ r. refl) in
          Owns-∷ {P = Q} Q (Event.upcall (w.callbacks cb).instance_ref u) loaded tt (λ r. refl);
    };
  }

  deliver_if-Serving :
      (c : ℤ) (m : Ptr) (size : ℤ) (e : Option Ref) (w : World)
      → Serving P rest peer cb g w
      → Serving P rest peer cb g (ChannelHandlers.deliver_if c m size cb e env w).1
  unfolding ChannelHandlers.deliver_if pure
  deliver_if-Serving c m size none w s = s
  deliver_if-Serving c m size (some e) w s =
      let (same, pointer) = deliver_same peer cb env c m size w in
      record {
        pointer = pointer ∙ s.pointer;
        listener = record {
          carries = ap (λ f. (f cb).instance_ref) same ∙ s.listener.carries;
          owns = (deliver-Moves c m cb size).run env w rest s.listener.owns;
        };
      }

  module _ (posix : env.is_windows ≡ false) where
    dispatch-Serving :
        (u : Upcall) (w : World)
        → Serving P rest peer cb g w
        → Serving P rest peer cb g (dispatch_jni (some cb) u env w).1
    unfolding dispatch_jni ◌>>=◌
    dispatch-Serving u w s =
        call-Serving (get_jni_env env w).0 u (get_jni_env env w).1
          (Unseen-Serving (get_jni_env-Unseen env w posix) s)

    message-Serving :
        (c : ℤ) (m : Ptr) (size : ℤ) (w : World)
        → Serving P rest peer cb g w
        → Serving P rest peer cb g
            (ChannelHandlers.handle_channel_message c m size (some cb) env w).1
    unfolding ChannelHandlers.handle_channel_message ◌>>=◌
    message-Serving c m size w s =
        deliver_if-Serving c m size (get_jni_env env w).0 (get_jni_env env w).1
          (Unseen-Serving (get_jni_env-Unseen env w posix) s)

    -- A handle that is handed the peer's user pointer, be it the peer's own.
    handed-Serving :
        (c : ℤ) (w : World)
        → Serving P rest peer cb g w
        → Serving P rest peer cb g
            (record w { trace = Event.set_user_pointer c (some cb) ∷ w.trace })
    handed-Serving c w s = record {
      pointer = kept_pointer (int_eq c peer) s.pointer;
      listener = record {
        carries = s.listener.carries;
        owns = Owns-∷ _ _ s.listener.owns tt (λ r. refl);
      };
    }

    pub notify-Serving :
        (n : Notification) (w : World)
        → Serving P rest peer cb g w
        → Serving P rest peer cb g (notify n (some cb) env w).1
    unfolding notify Handlers.handle_local_description Handlers.handle_local_candidate
        Handlers.handle_state_change Handlers.handle_ice_state_change
        Handlers.handle_gathering_state_change Handlers.handle_signaling_state_change
        Handlers.handle_data_channel Handlers.handle_track ChannelHandlers.handle_channel_open
        ChannelHandlers.handle_channel_closed ChannelHandlers.handle_channel_error
        ChannelHandlers.handle_channel_buffered_amount_low ChannelHandlers.handle_channel_available
        ◌>>=◌ ◌>>◌ Calls.set_user_pointer emit
    notify-Serving (data_channel_opened c) w s = dispatch-Serving _ _ (handed-Serving c w s)
    notify-Serving (track_opened t) w s = dispatch-Serving _ _ (handed-Serving t w s)
    notify-Serving (channel_message c m size) w s = message-Serving c m size w s
    notify-Serving n w s = dispatch-Serving _ w s
