-- ===== src/Logic/Rules.antt =====
-- The effect of each call on the ledger, for any `P` held besides.
use libdatachannel_java.Prelude.{
  String, Bool, true, false, ℕ, ◌+◌, ◌≡◌, refl, Option, none, some, List, arith,
}
use libdatachannel_java.Prelude.Int.{ℤ}
use libdatachannel_java.Native.Event.{Ptr, Ref, Exception, Upcall, RtcCall, RtcReliability, Trace}
use libdatachannel_java.Native.World.{
  when◌then◌else◌, Env, Globals, M, read, look, get_globals, set_globals,
}
use libdatachannel_java.Native.Calls.{
  malloc, free, get_array_length, get_object_array_element, get_string_utf_chars,
  release_string_utf_chars, delete_local_ref, new_global_ref, delete_global_ref, new_string_utf,
  new_string_of_block, new_direct_byte_buffer, get_direct_buffer_address,
  get_direct_buffer_capacity, throw, upcall, java_allocate, parse_candidate_pair,
  create_reliability, rtc, set_user_pointer, get_user_pointer,
}
use libdatachannel_java.Native.Calls.{get_java_vm, mi_version, snprintf}
use libdatachannel_java.Native.Event.{load, store}
use libdatachannel_java.Native.World.{JvmCallback}
use libdatachannel_java.Native.Memory.{store_callback, load_callback}
use libdatachannel_java.Logic.Ledger.{
  Has, Resource, block, chars, local_ref, global_ref, one_self, count, of_option, LiveArguments,
}
use libdatachannel_java.Logic.Moves.{
  Moves, Moves-ask, Moves-emit, Holds, got, Splits, Owns-∷, Owns-Holds,
}

pub count-got :
    (P : List Resource) (f : ℕ → Resource) (o : Option ℕ) (r : Resource)
    → count (got f o P) r + 0 ≡ count P r + count (of_option f o) r
count-got P f none r = omega arith
count-got P f (some a) r = omega arith

-- What was obtained first may go first.
pub Splits-got :
    (P Q : List Resource) (f : ℕ → Resource) (o : Option ℕ) (x : Resource)
    → Splits P x Q
    → Splits (got f o P) x (got f o Q)
Splits-got P Q f none x s r = s r
Splits-got P Q f (some a) x s r = omega (arith, s r)

module _ {P : List Resource} where
  pub malloc-Moves : (n : ℕ) → Moves P (malloc n) (λ p. got block p P)
  unfolding malloc
  malloc-Moves n = Moves-ask _ _ _ (λ _ t h. tt) (count-got P block)

  pub free-Moves :
      (p : Ptr) (Q : List Resource) → Splits P (block p) Q → Moves P (free (some p)) (λ _. Q)
  unfolding free
  free-Moves p Q s =
      Moves-emit _ Q (λ t h. omega (arith, h (block p), s (block p), one_self (block p)))
        (λ r. omega (arith, s r))

  pub free_null-Moves : Moves P (free none) (λ _. P)
  unfolding free
  free_null-Moves = Moves-emit _ P (λ t h. tt) (λ r. refl)

  pub get_array_length-Moves : (a : Ref) → Moves P (get_array_length a) (λ _. P)
  unfolding get_array_length
  get_array_length-Moves a = Moves-ask _ _ _ (λ n t h. tt) (λ n r. refl)

  pub get_object_array_element-Moves :
      (a : Ref) (i : ℕ) → Moves P (get_object_array_element a i) (λ s. got local_ref s P)
  unfolding get_object_array_element
  get_object_array_element-Moves a i = Moves-ask _ _ _ (λ _ t h. tt) (count-got P local_ref)

  pub get_string_utf_chars-Moves :
      (s : Ref) → Moves P (get_string_utf_chars s) (λ p. got (chars s) p P)
  unfolding get_string_utf_chars
  get_string_utf_chars-Moves s = Moves-ask _ _ _ (λ _ t h. tt) (count-got P (chars s))

  pub release_string_utf_chars-Moves :
      (s : Ref) (p : Ptr) (Q : List Resource)
      → Splits P (chars s p) Q
      → Moves P (release_string_utf_chars (some s) (some p)) (λ _. Q)
  unfolding release_string_utf_chars
  release_string_utf_chars-Moves s p Q d =
      Moves-emit _ Q (λ t h. omega (arith, h (chars s p), d (chars s p), one_self (chars s p)))
        (λ r. omega (arith, d r))

  pub delete_local_ref-Moves :
      (x : Ref) (Q : List Resource)
      → Splits P (local_ref x) Q
      → Moves P (delete_local_ref (some x)) (λ _. Q)
  unfolding delete_local_ref
  delete_local_ref-Moves x Q d =
      Moves-emit _ Q
        (λ t h. omega (arith, h (local_ref x), d (local_ref x), one_self (local_ref x)))
        (λ r. omega (arith, d r))

  pub delete_null-Moves : Moves P (delete_local_ref none) (λ _. P)
  unfolding delete_local_ref
  delete_null-Moves = Moves-emit _ P (λ t h. tt) (λ r. refl)

  pub new_global_ref-Moves : (r : Option Ref) → Moves P (new_global_ref r) (λ g. got global_ref g P)
  unfolding new_global_ref
  new_global_ref-Moves r = Moves-ask _ _ _ (λ _ t h. tt) (count-got P global_ref)

  pub new_string_utf-Moves : (p : Ptr) → Moves P (new_string_utf p) (λ s. got local_ref s P)
  unfolding new_string_utf
  new_string_utf-Moves p = Moves-ask _ _ _ (λ _ t h. tt) (count-got P local_ref)

  pub new_string_of_block-Moves :
      (p : Ptr)
      → ((t : Trace) → Holds P t → Has t (block p))
      → Moves P (new_string_of_block p) (λ s. got local_ref s P)
  unfolding new_string_of_block
  new_string_of_block-Moves p live = Moves-ask _ _ _ (λ _ t h. live t h) (count-got P local_ref)

  pub new_direct_byte_buffer-Moves :
      (p : Ptr) (n : ℤ) → Moves P (new_direct_byte_buffer p n) (λ s. got local_ref s P)
  unfolding new_direct_byte_buffer
  new_direct_byte_buffer-Moves p n = Moves-ask _ _ _ (λ _ t h. tt) (count-got P local_ref)

  pub java_allocate-Moves : (n : ℤ) → Moves P (java_allocate n) (λ s. got local_ref s P)
  unfolding java_allocate
  java_allocate-Moves n = Moves-ask _ _ _ (λ _ t h. tt) (count-got P local_ref)

  pub parse_candidate_pair-Moves :
      (l m : Ptr)
      → ((t : Trace) → Holds P t → Has t (block l) × Has t (block m))
      → Moves P (parse_candidate_pair l m) (λ r. got local_ref r P)
  unfolding parse_candidate_pair
  parse_candidate_pair-Moves l m live = Moves-ask _ _ _ (λ _ t h. live t h) (count-got P local_ref)

  pub create_reliability-Moves :
      (v : RtcReliability) → Moves P (create_reliability v) (λ s. got local_ref s P)
  unfolding create_reliability
  create_reliability-Moves v = Moves-ask _ _ _ (λ _ t h. tt) (count-got P local_ref)

  pub get_direct_buffer_address-Moves : (b : Ref) → Moves P (get_direct_buffer_address b) (λ _. P)
  unfolding get_direct_buffer_address
  get_direct_buffer_address-Moves b = Moves-ask _ _ _ (λ n t h. tt) (λ n r. refl)

  pub get_direct_buffer_capacity-Moves : (b : Ref) → Moves P (get_direct_buffer_capacity b) (λ _. P)
  unfolding get_direct_buffer_capacity
  get_direct_buffer_capacity-Moves b = Moves-ask _ _ _ (λ n t h. tt) (λ n r. refl)

  pub throw-Moves : (e : Exception) → Moves P (throw e) (λ _. P)
  unfolding throw
  throw-Moves e = Moves-emit _ P (λ t h. tt) (λ r. refl)

  pub upcall-Moves : (i : Option Ref) (u : Upcall) → Moves P (upcall i u) (λ _. P)
  unfolding upcall
  upcall-Moves i u = Moves-emit _ P (λ t h. tt) (λ r. refl)

  -- What rtc reads and writes has to be held.
  pub rtc-Moves :
      (c : RtcCall) → ((t : Trace) → Holds P t → LiveArguments t c) → Moves P (rtc c) (λ _. P)
  unfolding rtc
  rtc-Moves c live = Moves-ask _ _ _ (λ n t h. live t h) (λ n r. refl)

  pub set_user_pointer-Moves : (h : ℤ) (p : Option Ptr) → Moves P (set_user_pointer h p) (λ _. P)
  unfolding set_user_pointer
  set_user_pointer-Moves h p = Moves-emit _ P (λ t h. tt) (λ r. refl)

  pub get_user_pointer-Moves : (h : ℤ) → Moves P (get_user_pointer h) (λ _. P)
  unfolding get_user_pointer
  get_user_pointer-Moves h = Moves-ask _ _ _ (λ n t h. tt) (λ n r. refl)

  -- What makes no call changes nothing.
  pub read-Moves : {A : Type 0} (f : Env → A) → Moves P (read f) (λ _. P)
  unfolding read
  read-Moves f = record { run = λ env w rest o. o }

  pub look-Moves : {A : Type 0} (f : Env → Trace → A) → Moves P (look f) (λ _. P)
  unfolding look
  look-Moves f = record { run = λ env w rest o. o }

  pub get_globals-Moves : Moves P get_globals (λ _. P)
  unfolding get_globals
  get_globals-Moves = record { run = λ env w rest o. o }

  pub set_globals-Moves : (g : Globals) → Moves P (set_globals g) (λ _. P)
  unfolding set_globals
  set_globals-Moves g = record { run = λ env w rest o. o }

  -- Both ways of a test.
  pub when-Moves :
      {A : Type 0} (b : Bool) {x y : M A} {Q : A → List Resource}
      → Moves P x Q
      → Moves P y Q
      → Moves P (when b then x else y) Q
  unfolding when◌then◌else◌
  when-Moves true h k = h
  when-Moves false h k = k

  pub get_java_vm-Moves : Moves P get_java_vm (λ _. P)
  unfolding get_java_vm
  get_java_vm-Moves = Moves-ask _ _ _ (λ _ t h. tt) (λ n r. refl)

  -- A structure that is written or read has to be held.
  pub store_callback-Moves :
      (p : Ptr) (f : JvmCallback → JvmCallback)
      → ((t : Trace) → Holds P t → Has t (block p))
      → Moves P (store_callback p f) (λ _. P)
  unfolding store_callback
  store_callback-Moves p f live = record {
    run = λ env w rest o. Owns-∷ P (store p) o (live w.trace (Owns-Holds o)) (λ r. refl);
  }

  pub load_callback-Moves :
      (p : Ptr) → ((t : Trace) → Holds P t → Has t (block p)) → Moves P (load_callback p) (λ _. P)
  unfolding load_callback
  load_callback-Moves p live = record {
    run = λ env w rest o. Owns-∷ P (load p) o (live w.trace (Owns-Holds o)) (λ r. refl);
  }

  pub delete_global_ref-Moves :
      (g : Ref) (Q : List Resource)
      → Splits P (global_ref g) Q
      → Moves P (delete_global_ref (some g)) (λ _. Q)
  unfolding delete_global_ref
  delete_global_ref-Moves g Q d =
      Moves-emit _ Q
        (λ t h. omega (arith, h (global_ref g), d (global_ref g), one_self (global_ref g)))
        (λ r. omega (arith, d r))

module _ {P : List Resource} where
  pub mi_version-Moves : Moves P mi_version (λ _. P)
  unfolding mi_version
  mi_version-Moves = Moves-ask _ _ _ (λ _ t h. tt) (λ _ r. refl)

  pub snprintf-Moves :
      (p : Ptr) (n : ℕ) (f : String) (xs : List ℕ) → Moves P (snprintf p n f xs) (λ _. P)
  unfolding snprintf
  snprintf-Moves p n f xs = Moves-ask _ _ _ (λ _ t h. tt) (λ _ r. refl)
