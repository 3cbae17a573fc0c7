-- ===== src/Examples/Allocators.antt =====
-- The private build's allocation and the name of the allocator on the concrete machine.
use libdatachannel_java.Prelude.{
  ◌≡◌, refl, Bool, true, false, Option, none, some, List, [], ◌∷◌, map, ◌==◌, arith,
}
use libdatachannel_java.Prelude.Int.{pos}
use libdatachannel_java.Native.Event.{Ptr, Ref, Format}
use libdatachannel_java.Native.World.{Env, ◌>>=◌}
use libdatachannel_java.Logic.Ledger.{held}
use libdatachannel_java.Logic.Moves.{Owns, Safe-Owns}
use libdatachannel_java.Jni.{Platform, wrap}
use libdatachannel_java.Channel.Transfer.{bad_length, bad_range}
use libdatachannel_java.Channel.Transfer.Machine.{
  bad_length_jlong, bad_range_jlong, bad_jlong-eq-bad,
}
use libdatachannel_java.Util.{get_inner_allocator_native}
use libdatachannel_java.Util.InnerAllocator.{Named, get_inner_allocator_native-Named}
use libdatachannel_java.Allocator
use libdatachannel_java.Allocator.Ownership.{
  Printed, asprintf_l-Printed, allocate, by_crypto_realloc, release, by_imp_free,
  release-allocate-Owns,
}
use libdatachannel_java.Allocator.Diagnostics.{
  Hook, trace_allocate, trace_free, trace_align, check_foreign_buffer, run_hooks, snapshot,
}
use libdatachannel_java.Allocator.Diagnostics.Counts.{
  total, allocated, released, bytes, aligned, foreign, snapshot-run_hooks,
}
use libdatachannel_java.Examples.{machine, start}

-- The build with the private allocator.
abbrev hardened : Env
hardened = record machine { private_allocator = true }

abbrev greeting : Format
greeting = record { locale = 0; format = 70; arguments = 1 }

asprintf_l-Printed_example :
    Printed greeting (held start.trace) (Allocator.asprintf_l greeting hardened start)
asprintf_l-Printed_example =
    asprintf_l-Printed greeting (held start.trace) hardened start (Safe-Owns tt)

release-allocate-Owns_example :
    Owns []
      (held start.trace)
      ((allocate (by_crypto_realloc 24 "bn_lib.c" (pos 98)) >>= release by_imp_free) hardened
        start).1.trace
release-allocate-Owns_example =
    release-allocate-Owns (by_crypto_realloc 24 "bn_lib.c" (pos 98)) by_imp_free hardened start tt

get_inner_allocator_native-Named_example :
    Named hardened start (get_inner_allocator_native hardened start)
get_inner_allocator_native-Named_example = get_inner_allocator_native-Named hardened start

abbrev linux : Platform
linux = record { windows = false; lp64 = true }

bad_jlong-eq-bad_example :
    (bad_length_jlong linux (pos 64) (pos 2_147_483_647) (pos 1)
      ≡ bad_length (pos 64) (pos 2_147_483_647) (pos 1))
    × (bad_range_jlong linux (pos 64) (pos 2_147_483_647) (pos 1)
        ≡ bad_range (pos 64) (pos 2_147_483_647) (pos 1))
bad_jlong-eq-bad_example =
    bad_jlong-eq-bad linux (pos 64) (pos 2_147_483_647) (pos 1) refl (omega arith, omega arith)
      (omega arith, omega arith)

-- Memory of mimalloc at 64 only, and a direct buffer elsewhere.
abbrev regions : Ptr → Bool
regions p = p == 64

abbrev buffers : Ref → Option Ptr
buffers r = some 8192

abbrev hooks : List Hook
hooks =
    check_foreign_buffer 7
    ∷ trace_free (some 64)
    ∷ trace_free none
    ∷ trace_align (some 64)
    ∷ trace_allocate (some 64) 24
    ∷ []

snapshot-run_hooks_example :
    snapshot (run_hooks regions buffers hooks)
    ≡ map
        (λ f. wrap 64 (pos (total f hooks)))
        (allocated ∷ released ∷ bytes ∷ foreign regions buffers ∷ aligned ∷ [])
snapshot-run_hooks_example = snapshot-run_hooks regions buffers hooks
