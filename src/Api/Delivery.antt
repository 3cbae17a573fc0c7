-- ===== src/Api/Delivery.antt =====
-- What rtc's notifications do to the Java listener.
use libdatachannel_java.Prelude.{
  ◌≡◌, refl, ◌∙◌, ap, Bool, true, false, Option, none, some, ◌∷◌, is_some, if◌then◌else◌,
}
use libdatachannel_java.Prelude.Int.{ℤ, pos, int_lt}
use libdatachannel_java.Native.Event
use libdatachannel_java.Native.Event.{Ptr, Ref, Event, Trace, Upcall}
use libdatachannel_java.Native.World.{World, Env, pure, ◌>>=◌, ◌>>◌, when◌then◌else◌, emit, ask}
use libdatachannel_java.Native.Calls
use libdatachannel_java.Native.Memory.{load_callback}
use libdatachannel_java.Logic.Keeps.{Observed, observed, upcalls}
use libdatachannel_java.Init.{get_jni_env, jni_on_unload}
use libdatachannel_java.Init.Life.{unloaded, jni_on_unload-unloaded}
use libdatachannel_java.Callback.{dispatch_jni}
use libdatachannel_java.Callback.Dispatch.{
  upcalls-dispatch_jni, get_jni_env-Keeps, get_jni_env-unloaded,
}
use libdatachannel_java.Peer.Handlers
use libdatachannel_java.Channel.Handlers as ChannelHandlers
use libdatachannel_java.Api.{
  Notification, local_description_ready, local_candidate_ready, state_changed, ice_state_changed,
  gathering_state_changed, signaling_state_changed, data_channel_opened, track_opened,
  channel_opened, channel_closed, channel_low, channel_readable, channel_failed, channel_message,
  notify,
}

-- The object that is made of a message: a text if the size is negative, else a buffer.
abbrev pub made : Ptr → (size : ℤ) → (payload : Option Ref) → Event
made m size payload =
    if int_lt size (pos 0)
    then Event.new_string_utf m payload
    else Event.new_direct_byte_buffer m size payload

-- The method that a notification stands for, where the trace ends in `t`. A message's payload is the
-- object that was made of the message just before the call, and its reference is deleted after it.
abbrev pub Announces : Notification → Upcall → Trace → Type 0
Announces (local_description_ready a b) u t = u ≡ Event.on_local_description a b
Announces (local_candidate_ready a b) u t = u ≡ Event.on_local_candidate a b
Announces (state_changed s) u t = u ≡ Event.on_state_change s
Announces (ice_state_changed s) u t = u ≡ Event.on_ice_state_change s
Announces (gathering_state_changed s) u t = u ≡ Event.on_gathering_state_change s
Announces (signaling_state_changed s) u t = u ≡ Event.on_signaling_state_change s
Announces (data_channel_opened c) u t = u ≡ Event.on_data_channel c
Announces (track_opened k) u t = u ≡ Event.on_track k
Announces (channel_opened c) u t = u ≡ Event.on_channel_open c
Announces (channel_closed c) u t = u ≡ Event.on_channel_closed c
Announces (channel_low c) u t = u ≡ Event.on_channel_buffered_amount_low c
Announces (channel_readable c) u t = u ≡ Event.on_channel_available c
Announces (channel_failed c e) u t = u ≡ Event.on_channel_error c e
Announces (channel_message c m size) u t =
    (payload : Option Ref) × (u ≡ (
      if int_lt size (pos 0)
      then Event.on_channel_text_message c payload
      else Event.on_channel_binary_message c payload))
    × (cb : Ptr) × (g : Option Ref) × (t' : Trace) × (t
        ≡ Event.delete_local_ref payload
          ∷ Event.upcall g u
          ∷ Event.load cb
          ∷ made m size payload
          ∷ t')

-- The outcome for the listener behind `cb`: one call of that method at the reference that the
-- structure carries, if there is a JNIEnv, and nothing otherwise.
pub data Delivered (n : Notification) (cb : Ptr) (w : World) : Option Ref → World → Type 0 where
  silent : {w' : World} → upcalls w'.trace ≡ upcalls w.trace → Delivered n cb w none w'
  delivered :
      {e : Ref} (u : Upcall) {w' : World}
      → Announces n u w'.trace
      → upcalls w'.trace ≡ ((w.callbacks cb).instance_ref, u) ∷ upcalls w.trace
      → Delivered n cb w (some e) w'

module _ (n : Notification) (cb : Ptr) (env : Env) (w : World) where
  Delivered-of :
      (e : Option Ref) (u : Upcall) (w' : World)
      → Announces n u w'.trace
      → upcalls w'.trace ≡ (
          if is_some e
          then ((w.callbacks cb).instance_ref, u) ∷ upcalls w.trace
          else upcalls w.trace)
      → Delivered n cb w e w'
  Delivered-of none u w' a h = silent h
  Delivered-of (some e) u w' a h = delivered u a h

  dispatch-Delivered :
      (u : Upcall)
      → Announces n u (dispatch_jni (some cb) u env w).1.trace
      → Delivered n cb w (get_jni_env env w).0 (dispatch_jni (some cb) u env w).1
  dispatch-Delivered u a = Delivered-of _ u _ a (upcalls-dispatch_jni cb u env w)

-- The world in which a handler looks for a JNIEnv: those for new channels and tracks have handed the
-- user pointer on by then.
abbrev pub entered : Notification → Ptr → World → World
entered (data_channel_opened c) cb w = record w {
  trace = Event.set_user_pointer c (some cb) ∷ w.trace;
}
entered (track_opened t) cb w = record w { trace = Event.set_user_pointer t (some cb) ∷ w.trace }
entered n cb w = w

module _ (c : ℤ) (m : Ptr) (size : ℤ) (cb : Ptr) (env : Env) where
  -- The upcall for a message with this payload.
  abbrev message_upcall : Bool → Option Ref → Upcall
  message_upcall b payload =
      if b
      then Event.on_channel_text_message c payload
      else Event.on_channel_binary_message c payload

  abbrev HasUpcall : World → Bool → World → Type 0
  HasUpcall w b w' =
      (payload : Option Ref) × (upcalls w'.trace
        ≡ ((w.callbacks cb).instance_ref, message_upcall b payload) ∷ upcalls w.trace)
      × (w'.trace
          ≡ Event.delete_local_ref payload
            ∷ Event.upcall (w.callbacks cb).instance_ref (message_upcall b payload)
            ∷ Event.load cb
            ∷ (if b
                then Event.new_string_utf m payload
                else Event.new_direct_byte_buffer m size payload)
            ∷ w.trace)

  deliver_either :
      (b : Bool) (w : World)
      → HasUpcall w b
          ((when b
              then ChannelHandlers.deliver_text c m cb
              else ChannelHandlers.deliver_binary c m size cb)
            env w).1
  unfolding when◌then◌else◌ ChannelHandlers.deliver ◌>>=◌ ◌>>◌ Calls.new_string_utf
      Calls.new_direct_byte_buffer Calls.upcall Calls.delete_local_ref load_callback ask emit
  deliver_either true w = (env.new_string_utf w.trace m, refl, refl)
  deliver_either false w = (env.new_direct_byte_buffer w.trace m size, refl, refl)

  deliver-HasUpcall :
      (w : World) → HasUpcall w (int_lt size (pos 0)) (ChannelHandlers.deliver c m size cb env w).1
  unfolding ChannelHandlers.deliver
  deliver-HasUpcall w = deliver_either (int_lt size (pos 0)) w

  deliver_if-Delivered :
      (w w₁ : World) (e : Option Ref)
      → observed w₁ ≡ observed w
      → Delivered
          (channel_message c m size)
          cb
          w
          e
          (ChannelHandlers.deliver_if c m size cb e env w₁).1
  unfolding ChannelHandlers.deliver_if pure
  deliver_if-Delivered w w₁ none h = silent (ap (λ (o : Observed). o.calls) h)
  deliver_if-Delivered w w₁ (some e) h =
      let (payload, q, l) = deliver-HasUpcall w₁ in
      let u : Upcall = message_upcall (int_lt size (pos 0)) payload in
      delivered u (payload, refl, cb, (w₁.callbacks cb).instance_ref, w₁.trace, l)
        (q ∙ ap (λ (o : Observed). ((o.callbacks cb).instance_ref, u) ∷ o.calls) h)

  message-Delivered :
      (w : World)
      → Delivered
          (channel_message c m size)
          cb
          w
          (get_jni_env env w).0
          (ChannelHandlers.handle_channel_message c m size (some cb) env w).1
  unfolding ChannelHandlers.handle_channel_message ◌>>=◌
  message-Delivered w =
      deliver_if-Delivered w (get_jni_env env w).1 (get_jni_env env w).0
        (get_jni_env-Keeps.kept env w)

-- Every notification reaches the listener whose structure is the user pointer: exactly one call, of
-- the method that the notification stands for, at the reference that the structure carries; and no
-- call if the thread gets no JNIEnv. A message is handed over as the object that was made of it: a
-- string for a negative size, else a direct buffer of that size.
pub notify-Delivered :
    (n : Notification) (cb : Ptr) (env : Env) (w : World)
    → Delivered n cb
        (entered n cb w)
        (get_jni_env env (entered n cb w)).0
        (notify n (some cb) env w).1
unfolding notify Handlers.handle_local_description Handlers.handle_local_candidate
    Handlers.handle_state_change Handlers.handle_ice_state_change
    Handlers.handle_gathering_state_change Handlers.handle_signaling_state_change
    Handlers.handle_data_channel Handlers.handle_track ChannelHandlers.handle_channel_open
    ChannelHandlers.handle_channel_closed ChannelHandlers.handle_channel_error
    ChannelHandlers.handle_channel_buffered_amount_low ChannelHandlers.handle_channel_available
    ◌>>=◌ ◌>>◌ Calls.set_user_pointer emit
notify-Delivered (local_description_ready a b) cb env w = dispatch-Delivered _ cb env w _ refl
notify-Delivered (local_candidate_ready a b) cb env w = dispatch-Delivered _ cb env w _ refl
notify-Delivered (state_changed s) cb env w = dispatch-Delivered _ cb env w _ refl
notify-Delivered (ice_state_changed s) cb env w = dispatch-Delivered _ cb env w _ refl
notify-Delivered (gathering_state_changed s) cb env w = dispatch-Delivered _ cb env w _ refl
notify-Delivered (signaling_state_changed s) cb env w = dispatch-Delivered _ cb env w _ refl
notify-Delivered (data_channel_opened c) cb env w =
    dispatch-Delivered (data_channel_opened c) cb env (entered (data_channel_opened c) cb w) _ refl
notify-Delivered (track_opened t) cb env w =
    dispatch-Delivered (track_opened t) cb env (entered (track_opened t) cb w) _ refl
notify-Delivered (channel_opened c) cb env w = dispatch-Delivered _ cb env w _ refl
notify-Delivered (channel_closed c) cb env w = dispatch-Delivered _ cb env w _ refl
notify-Delivered (channel_low c) cb env w = dispatch-Delivered _ cb env w _ refl
notify-Delivered (channel_readable c) cb env w = dispatch-Delivered _ cb env w _ refl
notify-Delivered (channel_failed c e) cb env w = dispatch-Delivered _ cb env w _ refl
notify-Delivered (channel_message c m size) cb env w = message-Delivered c m size cb env w

pub entered_same :
    (n : Notification) (cb : Ptr) (w : World)
    → ((entered n cb w).globals ≡ w.globals)
      × (upcalls (entered n cb w).trace ≡ upcalls w.trace)
      × ((entered n cb w).callbacks ≡ w.callbacks)
entered_same (data_channel_opened c) cb w = (refl, refl, refl)
entered_same n cb w = (refl, refl, refl)

silent_of_none :
    {n : Notification} {cb : Ptr} {w : World} {e : Option Ref} {w' : World}
    → Delivered n cb w e w'
    → e ≡ none
    → upcalls w'.trace ≡ upcalls w.trace
silent_of_none (silent h) p = h
silent_of_none (delivered u a h) p = cc

notify_null :
    (n : Notification) (env : Env) (w : World)
    → upcalls (notify n none env w).1.trace ≡ upcalls w.trace
unfolding notify Handlers.handle_local_description Handlers.handle_local_candidate
    Handlers.handle_state_change Handlers.handle_ice_state_change
    Handlers.handle_gathering_state_change Handlers.handle_signaling_state_change
    Handlers.handle_data_channel Handlers.handle_track ChannelHandlers.handle_channel_open
    ChannelHandlers.handle_channel_closed ChannelHandlers.handle_channel_error
    ChannelHandlers.handle_channel_buffered_amount_low ChannelHandlers.handle_channel_available
    ChannelHandlers.handle_channel_message ◌>>=◌ ◌>>◌ Calls.set_user_pointer emit dispatch_jni pure
notify_null (data_channel_opened c) env w = refl
notify_null n env w = refl

notify-unloaded :
    (n : Notification) (ptr : Option Ptr) (env : Env) (w : World)
    → w.globals ≡ unloaded
    → upcalls (notify n ptr env w).1.trace ≡ upcalls w.trace
notify-unloaded n none env w e = notify_null n env w
notify-unloaded n (some cb) env w e =
    let (same_globals, same_calls, _) = entered_same n cb w in
    silent_of_none (notify-Delivered n cb env w) (
      ap (λ (r : Option Ref × World). r.0)
        (get_jni_env-unloaded env (entered n cb w) (same_globals ∙ e)))
    ∙ same_calls

-- After JNI_OnUnload, from any state and in any environment, no notification of rtc calls a
-- listener, whatever the user pointer is.
pub notify-after_unload :
    (jvm : Ref) (n : Notification) (ptr : Option Ptr) (env env' : Env) (w : World)
    → upcalls (notify n ptr env' (jni_on_unload jvm env w).1).1.trace
      ≡ upcalls (jni_on_unload jvm env w).1.trace
notify-after_unload jvm n ptr env env' w =
    notify-unloaded n ptr env' _ (jni_on_unload-unloaded jvm env w)
