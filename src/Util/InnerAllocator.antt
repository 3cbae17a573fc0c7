-- ===== src/Util/InnerAllocator.antt =====
-- The name that getInnerAllocatorNative of jni/src/util.c gives to the allocator.
use libdatachannel_java.Prelude.{
  ℕ, ◌+◌, ◌*◌, ◌/◌, ◌%◌, ◌<◌, ◌≡◌, refl, true, false, Option, [], ◌∷◌, arith, ◌||◌,
}
use libdatachannel_java.Prelude.Int.{ℤ, pos, negsuc, int_le}
use libdatachannel_java.Native.Event.{Ptr, Ref, new_string_utf, snprintf, mi_version}
use libdatachannel_java.Native.World.{World, Env, ◌>>=◌, when-run, read, look, ask}
use libdatachannel_java.Native.Calls
use libdatachannel_java.Util.{
  version_parts, new_literal, name_private_allocator, get_inner_allocator_native,
}

-- The outcomes. Without a private allocator the Java string is made from the literal "passthrough".
-- With one, the version is printed in three numbers; if the text fits into the array, the string is
-- made from the array, and the numbers are those of the version; else it is made from a literal.
pub data Named (env : Env) (w : World) : Option Ref × World → Type 0 where
  passthrough :
      {r : Option Ref} {w' : World}
      → env.private_allocator ≡ false
      → w'.trace ≡ new_string_utf (env.literal "passthrough") r ∷ w.trace
      → Named env w (r, w')
  versioned :
      (p : Ptr) (v major minor patch n : ℕ) {r : Option Ref} {w' : World}
      → env.private_allocator ≡ true
      → w'.trace
        ≡ new_string_utf p r
          ∷ snprintf p 64 "mimalloc-secure+%d.%d.%d" (major ∷ minor ∷ patch ∷ []) (pos n)
          ∷ mi_version v
          ∷ w.trace
      → (0 < n) × (n < 64)
      → (v ≡ major * 100 + minor * 10 + patch) × (minor < 10) × (patch < 10)
      → Named env w (r, w')
  unversioned :
      (p : Ptr) (v : ℕ) (n : ℤ) {r : Option Ref} {w' : World}
      → env.private_allocator ≡ true
      → w'.trace
        ≡ new_string_utf (env.literal "mimalloc-secure") r
          ∷ snprintf p 64 "mimalloc-secure+%d.%d.%d" (version_parts v) n
          ∷ mi_version v
          ∷ w.trace
      → int_le n (pos 0) || int_le (pos 64) n ≡ true
      → Named env w (r, w')

module _ (env : Env) (w : World) where
  printed-Named :
      (p : Ptr) (v : ℕ) (n : ℤ) (w' : World)
      → env.private_allocator ≡ true
      → w'.trace
        ≡ snprintf p 64 "mimalloc-secure+%d.%d.%d" (version_parts v) n ∷ mi_version v ∷ w.trace
      → int_le n (pos 0) || int_le (pos 64) n ≡ false
      → Named env w (Calls.new_string_utf p env w')
  unfolding Calls.new_string_utf ask
  printed-Named p v (pos n) w' e t h =
      versioned p v (v / 100) ((v / 10) % 10) (v % 10) n e (rw t refl) (ground arith, ground arith)
        (omega arith, omega arith, omega arith)
  printed-Named p v (negsuc n) w' e t h = absurd (ground arith)

  name-Named : env.private_allocator ≡ true → Named env w (name_private_allocator env w)
  unfolding name_private_allocator new_literal Calls.mi_version Calls.snprintf Calls.new_string_utf
      ◌>>=◌ ask look read
  name-Named e =
      when-run (Named env w) _ _ _ env _ (λ h. unversioned _ _ _ e refl h)
        (λ h. printed-Named _ _ _ _ e refl h)

  -- getInnerAllocatorNative returns the Java string of "passthrough" where the build has no private
  -- allocator. Where it has one, it prints the version of mimalloc as three numbers, of which the
  -- last two are below 10 and which make up the version again, into an array of 64 bytes. It returns
  -- the string of the array if the printed text is not empty and fits with its terminator, and that
  -- of "mimalloc-secure" otherwise.
  pub get_inner_allocator_native-Named : Named env w (get_inner_allocator_native env w)
  unfolding get_inner_allocator_native new_literal Calls.new_string_utf ◌>>=◌ read ask
  get_inner_allocator_native-Named =
      when-run (Named env w) _ _ _ env w name-Named (λ e. passthrough e refl)
