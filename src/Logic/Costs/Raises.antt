-- ===== src/Logic/Costs/Raises.antt =====
-- How many exceptions a program throws.
use libdatachannel_java.Prelude.{ℕ, String, Option, List, arith}
use libdatachannel_java.Prelude.Int.{ℤ}
use libdatachannel_java.Native.Event.{Ptr, Ref, Event, Exception, RtcCall, RtcReliability}
use libdatachannel_java.Native.World.{Env, M}
use libdatachannel_java.Native.Calls
use libdatachannel_java.Logic.Costs.{Costs, Costs-ask, Costs-emit}

abbrev pub raises : Event → ℕ
raises (Event.throw e) = 1
raises e = 0

abbrev pub Raises : {A : Type 0} → ℕ → Env → M A → Type 0
Raises k env m = Costs raises k env m

module _ {env : Env} where
  pub throw-Raises : (e : Exception) → Raises 1 env (Calls.throw e)
  unfolding Calls.throw
  throw-Raises e = Costs-emit _ (omega arith)

  pub free-Raises : (p : Option Ptr) → Raises 0 env (Calls.free p)
  unfolding Calls.free
  free-Raises p = Costs-emit _ (omega arith)

  pub get_string_utf_chars-Raises : (s : Ref) → Raises 0 env (Calls.get_string_utf_chars s)
  unfolding Calls.get_string_utf_chars
  get_string_utf_chars-Raises s = Costs-ask _ _ (λ _. omega arith)

  pub release_string_utf_chars-Raises :
      (s : Option Ref) (p : Option Ptr) → Raises 0 env (Calls.release_string_utf_chars s p)
  unfolding Calls.release_string_utf_chars
  release_string_utf_chars-Raises s p = Costs-emit _ (omega arith)

  pub delete_local_ref-Raises : (r : Option Ref) → Raises 0 env (Calls.delete_local_ref r)
  unfolding Calls.delete_local_ref
  delete_local_ref-Raises r = Costs-emit _ (omega arith)

  pub new_string_utf-Raises : (p : Ptr) → Raises 0 env (Calls.new_string_utf p)
  unfolding Calls.new_string_utf
  new_string_utf-Raises p = Costs-ask _ _ (λ _. omega arith)

  pub new_string_of_block-Raises : (p : Ptr) → Raises 0 env (Calls.new_string_of_block p)
  unfolding Calls.new_string_of_block
  new_string_of_block-Raises p = Costs-ask _ _ (λ _. omega arith)

  pub malloc-Raises : (n : ℕ) → Raises 0 env (Calls.malloc n)
  unfolding Calls.malloc
  malloc-Raises n = Costs-ask _ _ (λ _. omega arith)

  pub get_direct_buffer_address-Raises :
      (b : Ref) → Raises 0 env (Calls.get_direct_buffer_address b)
  unfolding Calls.get_direct_buffer_address
  get_direct_buffer_address-Raises b = Costs-ask _ _ (λ _. omega arith)

  pub get_direct_buffer_capacity-Raises :
      (b : Ref) → Raises 0 env (Calls.get_direct_buffer_capacity b)
  unfolding Calls.get_direct_buffer_capacity
  get_direct_buffer_capacity-Raises b = Costs-ask _ _ (λ _. omega arith)

  pub java_allocate-Raises : (n : ℤ) → Raises 0 env (Calls.java_allocate n)
  unfolding Calls.java_allocate
  java_allocate-Raises n = Costs-ask _ _ (λ _. omega arith)

  pub parse_candidate_pair-Raises : (l r : Ptr) → Raises 0 env (Calls.parse_candidate_pair l r)
  unfolding Calls.parse_candidate_pair
  parse_candidate_pair-Raises l r = Costs-ask _ _ (λ _. omega arith)

  pub create_reliability-Raises : (r : RtcReliability) → Raises 0 env (Calls.create_reliability r)
  unfolding Calls.create_reliability
  create_reliability-Raises r = Costs-ask _ _ (λ _. omega arith)

  pub get_user_pointer-Raises : (h : ℤ) → Raises 0 env (Calls.get_user_pointer h)
  unfolding Calls.get_user_pointer
  get_user_pointer-Raises h = Costs-ask _ _ (λ _. omega arith)

  pub set_user_pointer-Raises : (h : ℤ) (p : Option Ptr) → Raises 0 env (Calls.set_user_pointer h p)
  unfolding Calls.set_user_pointer
  set_user_pointer-Raises h p = Costs-emit _ (omega arith)

  pub mi_version-Raises : Raises 0 env Calls.mi_version
  unfolding Calls.mi_version
  mi_version-Raises = Costs-ask _ _ (λ _. omega arith)

  pub snprintf-Raises :
      (p : Ptr) (n : ℕ) (f : String) (xs : List ℕ) → Raises 0 env (Calls.snprintf p n f xs)
  unfolding Calls.snprintf
  snprintf-Raises p n f xs = Costs-ask _ _ (λ _. omega arith)

  pub rtc-Raises : (c : RtcCall) → Raises 0 env (Calls.rtc c)
  unfolding Calls.rtc
  rtc-Raises c = Costs-ask _ _ (λ _. omega arith)
