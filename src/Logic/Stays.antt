-- ===== src/Logic/Stays.antt =====
-- `Stays env peer m`: on the machine `env`, `m` leaves the listeners' structures alone, calls no
-- listener, and leaves the user pointer of `peer` as it was.
use libdatachannel_java.Prelude.{
  ℕ, String, ◌≡◌, refl, ◌∙◌, Bool, true, false, Option, none, List, ◌∷◌, [], if◌then◌else◌,
}
use libdatachannel_java.Prelude.Int.{ℤ, int_eq}
use libdatachannel_java.Native.Event.{
  Ptr, Ref, Event, Upcall, Trace, RtcCall, rtc_create_data_channel_ex, rtc_add_track,
  RtcReliability, Exception, set_user_pointer,
}
use libdatachannel_java.Native.World.{
  World, Env, JvmCallback, M, pure, ◌>>=◌, ◌>>◌, when◌then◌else◌, emit, ask, read, look,
}
use libdatachannel_java.Native.Calls
use libdatachannel_java.Logic.Keeps.{upcalls}

-- What was last set as the user pointer of a handle.
abbrev pub pointer_set : Trace → ℤ → Option Ptr
pointer_set [] h = none
pointer_set (set_user_pointer k p ∷ t) h = if int_eq k h then p else pointer_set t h
pointer_set (e ∷ t) h = pointer_set t h

pub record Linked : Type 0 where
  pub callbacks : Ptr → JvmCallback
  pub calls : List (Option Ref × Upcall)
  pub pointer : Option Ptr

abbrev pub linked : ℤ → World → Linked
linked peer w = record {
  callbacks = w.callbacks;
  calls = upcalls w.trace;
  pointer = pointer_set w.trace peer;
}

pub record Stays {A : Type 0} (env : Env) (peer : ℤ) (m : M A) : Type 0 where
  pub stays : (w : World) → linked peer (m env w).1 ≡ linked peer w

-- Events that neither call a listener nor set the user pointer of `peer`.
pub record Quiet (peer : ℤ) (e : Event) : Type 0 where
  pub calls : (t : Trace) → upcalls (e ∷ t) ≡ upcalls t
  pub pointer : (t : Trace) → pointer_set (e ∷ t) peer ≡ pointer_set t peer

module _ {env : Env} {peer : ℤ} where
  pub Stays-pure : {A : Type 0} (a : A) → Stays env peer (pure a)
  unfolding pure
  Stays-pure a = record { stays = λ w. refl }

  pub Stays->>= :
      {A B : Type 0} {m : M A} {f : A → M B}
      → Stays env peer m
      → ((a : A) → Stays env peer (f a))
      → Stays env peer (m >>= f)
  unfolding ◌>>=◌
  Stays->>= k l = record { stays = λ w. (l _).stays _ ∙ k.stays w }

  pub Stays->> :
      {A B : Type 0} {m : M A} {n : M B}
      → Stays env peer m
      → Stays env peer n
      → Stays env peer (m >> n)
  unfolding ◌>>◌
  Stays->> k l = Stays->>= k (λ _. l)

  pub Stays-when :
      {A : Type 0} (b : Bool) {m n : M A}
      → Stays env peer m
      → Stays env peer n
      → Stays env peer (when b then m else n)
  unfolding when◌then◌else◌
  Stays-when true k l = k
  Stays-when false k l = l

  pub Stays-read : {A : Type 0} (f : Env → A) → Stays env peer (read f)
  unfolding read
  Stays-read f = record { stays = λ w. refl }

  pub Stays-look : {A : Type 0} (f : Env → Trace → A) → Stays env peer (look f)
  unfolding look
  Stays-look f = record { stays = λ w. refl }

  pub Stays-emit : (e : Event) → Quiet peer e → Stays env peer (emit e)
  unfolding emit
  Stays-emit e q = record {
    stays = λ w i. record {
      callbacks = w.callbacks;
      calls = q.calls w.trace i;
      pointer = q.pointer w.trace i;
    };
  }

  pub Stays-ask :
      {A : Type 0} (f : Env → Trace → A) (e : A → Event)
      → ((a : A) → Quiet peer (e a))
      → Stays env peer (ask f e)
  unfolding ask
  Stays-ask f e q = record {
    stays = λ w i. record {
      callbacks = w.callbacks;
      calls = (q (f env w.trace)).calls w.trace i;
      pointer = (q (f env w.trace)).pointer w.trace i;
    };
  }

  pub malloc-Stays : (n : ℕ) → Stays env peer (Calls.malloc n)
  unfolding Calls.malloc
  malloc-Stays n = Stays-ask _ _ (λ _. record { calls = λ t. refl; pointer = λ t. refl })

  pub free-Stays : (p : Option Ptr) → Stays env peer (Calls.free p)
  unfolding Calls.free
  free-Stays p = Stays-emit _ (record { calls = λ t. refl; pointer = λ t. refl })

  pub throw-Stays : (e : Exception) → Stays env peer (Calls.throw e)
  unfolding Calls.throw
  throw-Stays e = Stays-emit _ (record { calls = λ t. refl; pointer = λ t. refl })

  pub get_string_utf_chars-Stays : (s : Ref) → Stays env peer (Calls.get_string_utf_chars s)
  unfolding Calls.get_string_utf_chars
  get_string_utf_chars-Stays s =
      Stays-ask _ _ (λ _. record { calls = λ t. refl; pointer = λ t. refl })

  pub release_string_utf_chars-Stays :
      (s : Option Ref) (p : Option Ptr) → Stays env peer (Calls.release_string_utf_chars s p)
  unfolding Calls.release_string_utf_chars
  release_string_utf_chars-Stays s p =
      Stays-emit _ (record { calls = λ t. refl; pointer = λ t. refl })

  pub delete_local_ref-Stays : (r : Option Ref) → Stays env peer (Calls.delete_local_ref r)
  unfolding Calls.delete_local_ref
  delete_local_ref-Stays r = Stays-emit _ (record { calls = λ t. refl; pointer = λ t. refl })

  pub new_string_utf-Stays : (p : Ptr) → Stays env peer (Calls.new_string_utf p)
  unfolding Calls.new_string_utf
  new_string_utf-Stays p = Stays-ask _ _ (λ _. record { calls = λ t. refl; pointer = λ t. refl })

  pub new_string_of_block-Stays : (p : Ptr) → Stays env peer (Calls.new_string_of_block p)
  unfolding Calls.new_string_of_block
  new_string_of_block-Stays p =
      Stays-ask _ _ (λ _. record { calls = λ t. refl; pointer = λ t. refl })

  pub get_array_length-Stays : (a : Ref) → Stays env peer (Calls.get_array_length a)
  unfolding Calls.get_array_length
  get_array_length-Stays a = Stays-ask _ _ (λ _. record { calls = λ t. refl; pointer = λ t. refl })

  pub get_object_array_element-Stays :
      (a : Ref) (k : ℕ) → Stays env peer (Calls.get_object_array_element a k)
  unfolding Calls.get_object_array_element
  get_object_array_element-Stays a k =
      Stays-ask _ _ (λ _. record { calls = λ t. refl; pointer = λ t. refl })

  pub get_direct_buffer_address-Stays :
      (b : Ref) → Stays env peer (Calls.get_direct_buffer_address b)
  unfolding Calls.get_direct_buffer_address
  get_direct_buffer_address-Stays b =
      Stays-ask _ _ (λ _. record { calls = λ t. refl; pointer = λ t. refl })

  pub get_direct_buffer_capacity-Stays :
      (b : Ref) → Stays env peer (Calls.get_direct_buffer_capacity b)
  unfolding Calls.get_direct_buffer_capacity
  get_direct_buffer_capacity-Stays b =
      Stays-ask _ _ (λ _. record { calls = λ t. refl; pointer = λ t. refl })

  pub java_allocate-Stays : (n : ℤ) → Stays env peer (Calls.java_allocate n)
  unfolding Calls.java_allocate
  java_allocate-Stays n = Stays-ask _ _ (λ _. record { calls = λ t. refl; pointer = λ t. refl })

  pub parse_candidate_pair-Stays : (l r : Ptr) → Stays env peer (Calls.parse_candidate_pair l r)
  unfolding Calls.parse_candidate_pair
  parse_candidate_pair-Stays l r =
      Stays-ask _ _ (λ _. record { calls = λ t. refl; pointer = λ t. refl })

  pub create_reliability-Stays : (r : RtcReliability) → Stays env peer (Calls.create_reliability r)
  unfolding Calls.create_reliability
  create_reliability-Stays r =
      Stays-ask _ _ (λ _. record { calls = λ t. refl; pointer = λ t. refl })

  pub get_user_pointer-Stays : (h : ℤ) → Stays env peer (Calls.get_user_pointer h)
  unfolding Calls.get_user_pointer
  get_user_pointer-Stays h = Stays-ask _ _ (λ _. record { calls = λ t. refl; pointer = λ t. refl })

  pub mi_version-Stays : Stays env peer Calls.mi_version
  unfolding Calls.mi_version
  mi_version-Stays = Stays-ask _ _ (λ _. record { calls = λ t. refl; pointer = λ t. refl })

  pub snprintf-Stays :
      (p : Ptr) (n : ℕ) (f : String) (xs : List ℕ) → Stays env peer (Calls.snprintf p n f xs)
  unfolding Calls.snprintf
  snprintf-Stays p n f xs = Stays-ask _ _ (λ _. record { calls = λ t. refl; pointer = λ t. refl })

  pub rtc-Stays : (c : RtcCall) → Stays env peer (Calls.rtc c)
  unfolding Calls.rtc
  rtc-Stays c = Stays-ask _ _ (λ _. record { calls = λ t. refl; pointer = λ t. refl })

  -- The user pointer of another handle.
  pub set_user_pointer-Stays :
      (h : ℤ) (p : Option Ptr) → int_eq h peer ≡ false → Stays env peer (Calls.set_user_pointer h p)
  unfolding Calls.set_user_pointer
  set_user_pointer-Stays h p e =
      Stays-emit _ (record { calls = λ t. refl; pointer = λ t. rw e refl })

-- The calls whose answer is a new handle that inherits the user pointer of a peer.
abbrev pub opens : RtcCall → Bool
opens (rtc_create_data_channel_ex h label init) = true
opens (rtc_add_track h sdp) = true
opens c = false
