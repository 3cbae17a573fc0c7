-- ===== src/Channel/Create/Inherit.antt =====
-- The user pointer of a new data channel, in rtcCreateDataChannelEx.
use libdatachannel_java.Prelude.{
  String, ◌≡◌, refl, ap, subst, ◌∙◌, Bool, true, false, Option, none, some, ◌∷◌, if◌then◌else◌,
}
use libdatachannel_java.Prelude.Int.{ℤ, pos, int_le, int_eq_self}
use libdatachannel_java.Native.Event.{Ptr, Ref, Trace, rtc, rtc_create_data_channel_ex}
use libdatachannel_java.Native.World.{
  M, World, Env, read, pure, ◌>>=◌, ◌>>◌, when◌then◌else◌, ask, emit, look,
}
use libdatachannel_java.Native.Calls
use libdatachannel_java.Logic.Stays.{Linked, linked, pointer_set}
use libdatachannel_java.Util.{exception_thrown, throw_native_exception}
use libdatachannel_java.Strings.{with_chars, release_if_chars}
use libdatachannel_java.Strings.Quiet.{release_if_chars-Stays}
use libdatachannel_java.Channel.Create.{
  ChannelOptions, channel_init, inherit_user_pointer, create_channel_with, no_protocol,
  create_data_channel_ex,
}

-- The outcome of rtcCreateDataChannelEx: an error, or a handle whose user pointer is now the one
-- that rtc gave for the peer.
pub data Inherited (peer : ℤ) (pointer : Option Ptr) : ℤ × World → Type 0 where
  refused : {n : ℤ} {w : World} → int_le (pos 0) n ≡ false → Inherited peer pointer (n, w)
  inherited :
      {n : ℤ} {w : World}
      → int_le (pos 0) n ≡ true
      → pointer_set w.trace n ≡ pointer
      → Inherited peer pointer (n, w)

module _ (peer : ℤ) (env : Env)
    (law : (t : Trace) → env.get_user_pointer t peer ≡ pointer_set t peer) where
  tail-Inherited :
      (n : ℤ) (b : Bool) (w : World)
      → int_le (pos 0) n ≡ b
      → Inherited peer
          (pointer_set w.trace peer)
          (((when b then inherit_user_pointer n peer else pure tt) >> pure n) env w)
  unfolding when◌then◌else◌ inherit_user_pointer ◌>>=◌ ◌>>◌ pure Calls.get_user_pointer
      Calls.set_user_pointer ask emit
  tail-Inherited n false w e = refused e
  tail-Inherited n true w e = inherited e (rw (int_eq_self n) (law w.trace))

  -- A failure that throws and returns.
  pub fail-Inherited :
      (p : Option Ptr) (msg : String) (w : World)
      → Inherited peer p ((throw_native_exception msg >> pure exception_thrown) env w)
  unfolding throw_native_exception ◌>>=◌ ◌>>◌ pure Calls.throw emit look
  fail-Inherited p msg w = refused refl

  -- Borrowing characters does not disturb the user pointers.
  module _ (fail : M ℤ) (next : Option Ptr → M ℤ)
      (failed : (p : Option Ptr) (w : World) → Inherited peer p (fail env w))
      (continued : (c : Option Ptr) (w : World)
        → Inherited peer (pointer_set w.trace peer) (next c env w)) where
    answered-Inherited :
        (r : Option Ptr) (w : World)
        → Inherited peer
            (pointer_set w.trace peer)
            ((elim r as (λ _. M ℤ) [ none ↦ fail | some p ↦ next (some p) ]) env w)
    answered-Inherited none w = failed _ w
    answered-Inherited (some p) w = continued (some p) w

    pub with_chars-Inherited :
        (s : Option Ref) (w : World)
        → Inherited peer (pointer_set w.trace peer) (with_chars s fail next env w)
    unfolding with_chars ◌>>=◌ Calls.get_string_utf_chars ask
    with_chars-Inherited none w = continued none w
    with_chars-Inherited (some s) w = answered-Inherited _ _

  module _ (o : ChannelOptions) (label protocol : Option Ref) where
    create-Inherited :
        (c d : Option Ptr) (w : World)
        → Inherited peer
            (pointer_set w.trace peer)
            (create_channel_with peer o label protocol c d env w)
    unfolding create_channel_with read ◌>>=◌ ◌>>◌ Calls.rtc ask
    create-Inherited c d w =
        let call = rtc_create_data_channel_ex peer c (channel_init env.to_field o d) in
        let n : ℤ = env.rtc w.trace call in
        let w₁ : World = record w { trace = rtc call n ∷ w.trace } in
        let w₂ : World = (release_if_chars label c env w₁).1 in
        let w₃ : World = (release_if_chars protocol d env w₂).1 in
        let e : linked peer w₃ ≡ linked peer w₁ =
          (release_if_chars-Stays protocol d).stays w₂
          ∙ (release_if_chars-Stays label c).stays w₁ in
        subst
          (λ x. Inherited peer x (
            ((when int_le (pos 0) n then inherit_user_pointer n peer else pure tt) >> pure n) env
              w₃))
          (ap (λ (l : Linked). l.pointer) e) (tail-Inherited n (int_le (pos 0) n) w₃ refl)

    no_protocol-Inherited :
        (c p : Option Ptr) (w : World)
        → Inherited peer p (no_protocol peer o label protocol c env w)
    unfolding no_protocol throw_native_exception ◌>>=◌ ◌>>◌ pure Calls.throw emit look
    no_protocol-Inherited c p w = refused refl

  -- Where rtcGetUserPointer answers with what was last set for the peer, rtcCreateDataChannelEx
  -- answers with a negative code, or with a handle whose user pointer is the peer's from now on.
  pub create_data_channel_ex-Inherited :
      (o : ChannelOptions) (label protocol : Option Ref) (w : World)
      → Inherited peer
          (pointer_set w.trace peer)
          (create_data_channel_ex peer o label protocol env w)
  unfolding create_data_channel_ex
  create_data_channel_ex-Inherited o label protocol w =
      with_chars-Inherited _ _ (λ p w'. fail-Inherited p _ w')
        (λ c w'.
          with_chars-Inherited _ _ (no_protocol-Inherited o label protocol c)
            (λ d w''. create-Inherited o label protocol c d w'') protocol w')
        label w
