-- ===== src/Allocator/Diagnostics.antt =====
-- jni/tests/allocator_diagnostics.c: the counters of the diagnostic build, in which mimalloc calls
-- the hooks. Each counter is an atomic `uint64_t`, and each access is one step; which memory lies in
-- mimalloc's regions, and where a direct buffer lies, are parameters.
pub mod Counts
use libdatachannel_java.Prelude.{
  ℕ, ◌+◌, ◌%◌, ◌^◌, Bool, true, false, Option, none, some, List, [], ◌∷◌, map,
}
use libdatachannel_java.Prelude.Int.{ℤ, pos}
use libdatachannel_java.Native.Event.{Ptr, Ref}
use libdatachannel_java.Jni.{wrap}

pub record Counters : Type 0 where
  pub allocations : ℕ
  pub releases : ℕ
  pub requested_bytes : ℕ
  pub violations : ℕ
  pub alignments : ℕ

-- The static counters before the first call.
abbrev pub zeros : Counters
zeros = record {
  allocations = 0;
  releases = 0;
  requested_bytes = 0;
  violations = 0;
  alignments = 0;
}

-- `atomic_fetch_add_explicit` on a `uint64_t`.
abbrev pub fetch_add : (counter n : ℕ) → ℕ
fetch_add counter n = (counter + n) % 2 ^ 64

-- The calls that change the counters.
pub data Hook : Type 0 where
  trace_allocate : (memory : Option Ptr) → (requested : ℕ) → Hook
  trace_free trace_align : (memory : Option Ptr) → Hook
  check_foreign_buffer : (memory : Ref) → Hook

module _ (is_in_heap_region : Ptr → Bool) (get_direct_buffer_address : Ref → Option Ptr) where
  unfoldable pub add_violation : Bool → Counters → Counters
  add_violation true c = c
  add_violation false c = record c { violations = fetch_add c.violations 1 }

  unfoldable pub check_owner : Option Ptr → Counters → Counters
  unfolding add_violation
  check_owner none c = c
  check_owner (some memory) c = add_violation (is_in_heap_region memory) c

  unfoldable pub run_hook : Hook → Counters → Counters
  unfolding check_owner
  run_hook (trace_allocate none requested) c = c
  run_hook (trace_allocate (some memory) requested) c =
      let checked = check_owner (some memory) c in
      record checked {
        allocations = fetch_add checked.allocations 1;
        requested_bytes = fetch_add checked.requested_bytes requested;
      }
  run_hook (trace_free none) c = c
  run_hook (trace_free (some memory)) c =
      let checked = check_owner (some memory) c in
      record checked { releases = fetch_add checked.releases 1 }
  run_hook (trace_align memory) c =
      let checked = check_owner memory c in
      record checked { alignments = fetch_add checked.alignments 1 }
  run_hook (check_foreign_buffer memory) c = check_owner (get_direct_buffer_address memory) c

  -- The counters after these calls, the newest first.
  unfoldable pub run_hooks : List Hook → Counters
  unfolding run_hook
  run_hooks [] = zeros
  run_hooks (h ∷ hs) = run_hook h (run_hooks hs)

-- The numbers that `snapshot` puts into its array, each cast to `jlong`.
unfoldable pub snapshot : Counters → List ℤ
snapshot c =
    map (λ n. wrap 64 (pos n))
      (c.allocations ∷ c.releases ∷ c.requested_bytes ∷ c.violations ∷ c.alignments ∷ [])
