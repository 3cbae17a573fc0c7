-- ===== src/Allocator/Diagnostics/Counts.antt =====
-- What the counters of the diagnostic build count.
use libdatachannel_java.Prelude.{
  ℕ, ◌+◌, ◌%◌, ◌^◌, ◌≡◌, refl, Bool, true, false, Option, none, some, List, [], ◌∷◌, map, ap, ◌∙◌,
  arith,
}
use libdatachannel_java.Prelude.Int.{pos}
use libdatachannel_java.Native.Event.{Ptr, Ref}
use libdatachannel_java.Jni.{wrap}
use libdatachannel_java.Jni.Widths.{wrap-mod}
use libdatachannel_java.Allocator.Diagnostics.{
  Counters, fetch_add, Hook, trace_allocate, trace_free, trace_align, check_foreign_buffer,
  add_violation, check_owner, run_hook, run_hooks, snapshot,
}

-- The sum of a quantity over the calls.
abbrev pub total : (Hook → ℕ) → List Hook → ℕ
total f [] = 0
total f (h ∷ hs) = total f hs + f h

-- One for memory, 0 for `NULL`.
abbrev pub given : Option Ptr → ℕ
given none = 0
given (some memory) = 1

abbrev pub allocated : Hook → ℕ
allocated (trace_allocate memory requested) = given memory
allocated h = 0

abbrev pub bytes : Hook → ℕ
bytes (trace_allocate none requested) = 0
bytes (trace_allocate (some memory) requested) = requested
bytes h = 0

abbrev pub released : Hook → ℕ
released (trace_free memory) = given memory
released h = 0

abbrev pub aligned : Hook → ℕ
aligned (trace_align memory) = 1
aligned h = 0

module _ (is_in_heap_region : Ptr → Bool) (get_direct_buffer_address : Ref → Option Ptr) where
  -- The memory that a call looks at.
  abbrev pub subject : Hook → Option Ptr
  subject (trace_allocate memory requested) = memory
  subject (trace_free memory) = memory
  subject (trace_align memory) = memory
  subject (check_foreign_buffer memory) = get_direct_buffer_address memory

  abbrev pub foreign_if : Bool → ℕ
  foreign_if true = 0
  foreign_if false = 1

  -- One for memory outside mimalloc's regions.
  abbrev pub foreign_at : Option Ptr → ℕ
  foreign_at none = 0
  foreign_at (some memory) = foreign_if (is_in_heap_region memory)

  abbrev pub foreign : Hook → ℕ
  foreign h = foreign_at (subject h)

  -- Each counter is its total, as far as 64 bits hold it.
  record Counted (hs : List Hook) (c : Counters) : Type 0 where
    pub allocations : c.allocations ≡ total allocated hs % 2 ^ 64
    pub releases : c.releases ≡ total released hs % 2 ^ 64
    pub requested_bytes : c.requested_bytes ≡ total bytes hs % 2 ^ 64
    pub violations : c.violations ≡ total foreign hs % 2 ^ 64
    pub alignments : c.alignments ≡ total aligned hs % 2 ^ 64

  counted : (c t n : ℕ) → c ≡ t % 2 ^ 64 → fetch_add c n ≡ (t + n) % 2 ^ 64
  counted c t n e = omega arith

  same : (c t : ℕ) → c ≡ t % 2 ^ 64 → c ≡ (t + 0) % 2 ^ 64
  same c t e = omega arith

  -- `check_owner` counts memory outside the regions, and touches no other counter.
  check_owner-violations :
      (o : Option Ptr) (c : Counters) (t : ℕ)
      → c.violations ≡ t % 2 ^ 64
      → (check_owner is_in_heap_region get_direct_buffer_address o c).violations
        ≡ (t + foreign_at o) % 2 ^ 64
  unfolding check_owner add_violation
  check_owner-violations none c t e = same c.violations t e
  check_owner-violations (some memory) c t e =
      elim (is_in_heap_region memory)
        as (λ b.
          (add_violation is_in_heap_region get_direct_buffer_address b c).violations
          ≡ (t + foreign_if b) % 2 ^ 64) [
            | true ↦ same c.violations t e
            | false ↦ counted c.violations t 1 e
          ]

  check_owner-others :
      (o : Option Ptr) (c : Counters)
      → check_owner is_in_heap_region get_direct_buffer_address o c ≡ record c {
        violations = (check_owner is_in_heap_region get_direct_buffer_address o c).violations;
      }
  unfolding check_owner add_violation
  check_owner-others none c = refl
  check_owner-others (some memory) c =
      elim (is_in_heap_region memory)
        as (λ b. add_violation is_in_heap_region get_direct_buffer_address b c ≡ record c {
          violations = (add_violation is_in_heap_region get_direct_buffer_address b c).violations;
        }) [ true ↦ refl | false ↦ refl ]

  run_hook-Counted :
      (h : Hook) (hs : List Hook) (c : Counters)
      → Counted hs c
      → Counted (h ∷ hs) (run_hook is_in_heap_region get_direct_buffer_address h c)
  unfolding run_hook
  run_hook-Counted (trace_allocate none requested) hs c k = record {
    allocations = same _ _ k.allocations;
    releases = same _ _ k.releases;
    requested_bytes = same _ _ k.requested_bytes;
    violations = same _ _ k.violations;
    alignments = same _ _ k.alignments;
  }
  run_hook-Counted (trace_allocate (some memory) requested) hs c k = record {
    allocations =
        counted _ _ 1 (
          ap (λ (x : Counters). x.allocations) (check_owner-others (some memory) c)
          ∙ k.allocations);
    releases =
        same _ _
          (ap (λ (x : Counters). x.releases) (check_owner-others (some memory) c) ∙ k.releases);
    requested_bytes = counted _ _ requested (
        ap (λ (x : Counters). x.requested_bytes) (check_owner-others (some memory) c)
        ∙ k.requested_bytes);
    alignments =
        same _ _
          (ap (λ (x : Counters). x.alignments) (check_owner-others (some memory) c) ∙ k.alignments);
    violations = check_owner-violations (some memory) c _ k.violations;
  }
  run_hook-Counted (trace_free none) hs c k = record {
    allocations = same _ _ k.allocations;
    releases = same _ _ k.releases;
    requested_bytes = same _ _ k.requested_bytes;
    violations = same _ _ k.violations;
    alignments = same _ _ k.alignments;
  }
  run_hook-Counted (trace_free (some memory)) hs c k = record {
    allocations =
        same _ _ (
          ap (λ (x : Counters). x.allocations) (check_owner-others (some memory) c)
          ∙ k.allocations);
    releases =
        counted _ _ 1
          (ap (λ (x : Counters). x.releases) (check_owner-others (some memory) c) ∙ k.releases);
    requested_bytes = same _ _ (
        ap (λ (x : Counters). x.requested_bytes) (check_owner-others (some memory) c)
        ∙ k.requested_bytes);
    alignments =
        same _ _
          (ap (λ (x : Counters). x.alignments) (check_owner-others (some memory) c) ∙ k.alignments);
    violations = check_owner-violations (some memory) c _ k.violations;
  }
  run_hook-Counted (trace_align memory) hs c k = record {
    allocations =
        same _ _
          (ap (λ (x : Counters). x.allocations) (check_owner-others memory c) ∙ k.allocations);
    releases =
        same _ _ (ap (λ (x : Counters). x.releases) (check_owner-others memory c) ∙ k.releases);
    requested_bytes = same _ _ (
        ap (λ (x : Counters). x.requested_bytes) (check_owner-others memory c) ∙ k.requested_bytes);
    alignments =
        counted _ _ 1
          (ap (λ (x : Counters). x.alignments) (check_owner-others memory c) ∙ k.alignments);
    violations = check_owner-violations memory c _ k.violations;
  }
  run_hook-Counted (check_foreign_buffer memory) hs c k = record {
    allocations = same _ _ (
        ap (λ (x : Counters). x.allocations)
          (check_owner-others (get_direct_buffer_address memory) c)
        ∙ k.allocations);
    releases = same _ _ (
        ap (λ (x : Counters). x.releases) (check_owner-others (get_direct_buffer_address memory) c)
        ∙ k.releases);
    requested_bytes = same _ _ (
        ap (λ (x : Counters). x.requested_bytes)
          (check_owner-others (get_direct_buffer_address memory) c)
        ∙ k.requested_bytes);
    alignments = same _ _ (
        ap (λ (x : Counters). x.alignments)
          (check_owner-others (get_direct_buffer_address memory) c)
        ∙ k.alignments);
    violations = check_owner-violations (get_direct_buffer_address memory) c _ k.violations;
  }

  run_hooks-Counted :
      (hs : List Hook) → Counted hs (run_hooks is_in_heap_region get_direct_buffer_address hs)
  unfolding run_hooks
  run_hooks-Counted [] = record {
    allocations = refl;
    releases = refl;
    requested_bytes = refl;
    violations = refl;
    alignments = refl;
  }
  run_hooks-Counted (h ∷ hs) = run_hook-Counted h hs _ (run_hooks-Counted hs)

  -- For any regions of mimalloc, any direct buffers and after any calls of the hooks and of
  -- checkForeignBuffer, one at a time: the test's `snapshot` has, as far as `jlong` holds them, how
  -- often memory that is not `NULL` was allocated and was released, how many bytes were requested for
  -- it, how often a call was given memory outside mimalloc's regions, and how often memory was
  -- aligned.
  pub snapshot-run_hooks :
      (hs : List Hook)
      → snapshot (run_hooks is_in_heap_region get_direct_buffer_address hs)
        ≡ map
            (λ f. wrap 64 (pos (total f hs)))
            (allocated ∷ released ∷ bytes ∷ foreign ∷ aligned ∷ [])
  unfolding snapshot
  snapshot-run_hooks hs =
      let k = run_hooks-Counted hs in
      rw (
        wrap-mod _ _ k.allocations,
        wrap-mod _ _ k.releases,
        wrap-mod _ _ k.requested_bytes,
        wrap-mod _ _ k.violations,
        wrap-mod _ _ k.alignments,
      )
