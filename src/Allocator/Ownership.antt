-- ===== src/Allocator/Ownership.antt =====
-- The ledger of the private allocator: who may free what.
use libdatachannel_java.Prelude.{
  ℕ, ◌+◌, ◌≤◌, ◌≡◌, refl, Bool, true, false, Option, none, some, String, List, [], ◌∷◌, arith,
  if◌then◌else◌, ◌||◌,
}
use libdatachannel_java.Prelude.Int.{ℤ, pos, negsuc, int_eq, int_lt, pos_part}
use libdatachannel_java.Native.Event.{
  Ptr, Format, Trace, MiCall, mi, mi_malloc, mi_calloc, mi_realloc, mi_strdup, mi_strndup,
  mi_aligned_alloc, vsnprintf_l,
}
use libdatachannel_java.Native.World.{
  M, World, Env, pure, ◌>>=◌, ◌>>◌, when-run, when◌then◌else◌, ask, emit,
}
use libdatachannel_java.Native.Calls
use libdatachannel_java.Logic.Ledger.{Resource, mi_block, count, held, Safe, one_self, of_option}
use libdatachannel_java.Logic.Moves.{
  Owns, Moves, Moves-pure, Moves->>=, Moves->>, Moves-ask, Moves-emit, Safe-Owns, got,
}
use libdatachannel_java.Logic.Rules.{when-Moves, count-got}
use libdatachannel_java.Allocator

-- The ways to obtain memory, with their arguments.
pub data Allocation : Type 0 where
  by_malloc by_imp_malloc : ℕ → Allocation
  by_calloc by_imp_calloc : (count size : ℕ) → Allocation
  by_realloc by_imp_realloc : ℕ → Allocation
  by_strdup by_imp_strdup by_windows_strdup by_imp_windows_strdup : Option Ptr → Allocation
  by_strndup : Option Ptr → ℕ → Allocation
  by_aligned_alloc by_posix_memalign : (alignment size : ℕ) → Allocation
  by_asprintf_l : Format → Allocation
  by_crypto_malloc by_crypto_realloc : ℕ → String → ℤ → Allocation

-- The memory that a call gave: `realloc` of `NULL`, `*memory` after a zero code, `*output`.
unfoldable pub allocate : Allocation → M (Option Ptr)
allocate (by_malloc n) = Allocator.malloc n
allocate (by_imp_malloc n) = Allocator.imp_malloc n
allocate (by_calloc n k) = Allocator.calloc n k
allocate (by_imp_calloc n k) = Allocator.imp_calloc n k
allocate (by_realloc n) = Allocator.realloc none n
allocate (by_imp_realloc n) = Allocator.imp_realloc none n
allocate (by_strdup s) = Allocator.strdup s
allocate (by_imp_strdup s) = Allocator.imp_strdup s
allocate (by_windows_strdup s) = Allocator.windows_strdup s
allocate (by_imp_windows_strdup s) = Allocator.imp_windows_strdup s
allocate (by_strndup s n) = Allocator.strndup s n
allocate (by_aligned_alloc a n) = Allocator.aligned_alloc a n
allocate (by_posix_memalign a n) =
    Allocator.posix_memalign a n >>= λ r. pure (if int_eq r.0 (pos 0) then r.1 else none)
allocate (by_asprintf_l f) = Allocator.asprintf_l f >>= λ r. pure r.1
allocate (by_crypto_malloc n file line) = Allocator.crypto_malloc n file line
allocate (by_crypto_realloc n file line) = Allocator.crypto_realloc none n file line

pub data Release : Type 0 where
  by_free by_imp_free : Release
  by_crypto_free : String → ℤ → Release

unfoldable pub release : Release → Option Ptr → M (Unit {0})
release by_free p = Allocator.free p
release by_imp_free p = Allocator.imp_free p
release (by_crypto_free file line) p = Allocator.crypto_free p file line

abbrev Fresh : MiCall → Type 0
Fresh (mi_realloc (some p) n) = ⊥
Fresh c = Unit {0}

module _ {P : List Resource} where
  mi_free-Moves : (p : Option Ptr) → Moves (got mi_block p P) (Calls.mi_free p) (λ _. P)
  unfolding Calls.mi_free
  mi_free-Moves none = Moves-emit _ P (λ t h. tt) (λ r. refl)
  mi_free-Moves (some p) =
      Moves-emit _ P (λ t h. omega (arith, h (mi_block p), one_self (mi_block p)))
        (λ r. omega arith)

  -- All but a `realloc` of a block obtain memory and give nothing back.
  mi-Moves : (c : MiCall) → Fresh c → Moves P (Calls.mi c) (λ p. got mi_block p P)
  unfolding Calls.mi
  mi-Moves (mi_malloc n) f = Moves-ask _ _ _ (λ _ t h. tt) (count-got P mi_block)
  mi-Moves (mi_calloc n k) f = Moves-ask _ _ _ (λ _ t h. tt) (count-got P mi_block)
  mi-Moves (mi_realloc none n) f = Moves-ask _ _ _ (λ _ t h. tt) (count-got P mi_block)
  mi-Moves (mi_realloc (some p) n) f = absurd f
  mi-Moves (mi_strdup s) f = Moves-ask _ _ _ (λ _ t h. tt) (count-got P mi_block)
  mi-Moves (mi_strndup s n) f = Moves-ask _ _ _ (λ _ t h. tt) (count-got P mi_block)
  mi-Moves (mi_aligned_alloc a n) f = Moves-ask _ _ _ (λ _ t h. tt) (count-got P mi_block)

  posix_memalign-Moves :
      (a n : ℕ)
      → Moves P
          (Calls.mi_posix_memalign a n)
          (λ r. got mi_block (if int_eq r.0 (pos 0) then r.1 else none) P)
  unfolding Calls.mi_posix_memalign
  posix_memalign-Moves a n = Moves-ask _ _ _ (λ _ t h. tt) (λ r x. given (int_eq r.0 (pos 0)) r.1 x)
    where
      given :
          (b : Bool) (o : Option Ptr) (x : Resource)
          → count (got mi_block (if b then o else none) P) x + 0
            ≡ count P x + count (if b then of_option mi_block o else []) x
      given true o x = count-got P mi_block o x
      given false o x = omega arith

vsnprintf_l-Moves :
    (P : List Resource) (b : Option Ptr) (n : ℕ) (f : Format)
    → Moves (got mi_block b P) (Calls.vsnprintf_l b n f) (λ _. got mi_block b P)
unfolding Calls.vsnprintf_l
vsnprintf_l-Moves P none n f = Moves-ask _ _ _ (λ _ t h. tt) (λ _ r. refl)
vsnprintf_l-Moves P (some b) n f =
    Moves-ask _ _ _ (λ _ t h. omega (arith, h (mi_block b), one_self (mi_block b))) (λ _ r. refl)

module _ {P : List Resource} where
  print_into-Moves :
      (f : Format) (size : ℤ) (o : Option Ptr)
      → Moves (got mi_block o P) (Allocator.print_into f size o) (λ r. got mi_block r.1 P)
  unfolding Allocator.print_into Calls.set_errno_enomem
  print_into-Moves f size none =
      Moves->> (Moves-emit _ P (λ t h. tt) (λ r. refl)) (Moves-pure _ refl)
  print_into-Moves f size (some b) = Moves->>= (vsnprintf_l-Moves P (some b) _ f) λ written.
      when-Moves _ (Moves->> (mi_free-Moves (some b)) (Moves-pure _ refl)) (Moves-pure _ refl)

module _ {P : List Resource} where
  asprintf_l-Moves : (f : Format) → Moves P (Allocator.asprintf_l f) (λ r. got mi_block r.1 P)
  unfolding Allocator.asprintf_l
  asprintf_l-Moves f = Moves->>= (vsnprintf_l-Moves P none 0 f) λ size.
      when-Moves _ (Moves-pure _ refl)
        (Moves->>= (mi-Moves (mi_malloc _) tt) λ o. print_into-Moves f size o)

  allocate-Moves : (a : Allocation) → Moves P (allocate a) (λ o. got mi_block o P)
  unfolding allocate Allocator.malloc Allocator.imp_malloc Allocator.calloc Allocator.imp_calloc
      Allocator.realloc Allocator.imp_realloc Allocator.strdup Allocator.imp_strdup
      Allocator.windows_strdup Allocator.imp_windows_strdup Allocator.strndup
      Allocator.aligned_alloc Allocator.posix_memalign Allocator.crypto_malloc
      Allocator.crypto_realloc
  allocate-Moves (by_asprintf_l f) = Moves->>= (asprintf_l-Moves f) λ r. Moves-pure r.1 refl
  allocate-Moves (by_posix_memalign a n) =
      Moves->>= (posix_memalign-Moves a n) λ r. Moves-pure _ refl
  allocate-Moves a = mi-Moves _ tt

  release-Moves : (r : Release) (o : Option Ptr) → Moves (got mi_block o P) (release r o) (λ _. P)
  unfolding release Allocator.free Allocator.imp_free Allocator.crypto_free
  release-Moves (by_crypto_free file line) o = mi_free-Moves o
  release-Moves r o = mi_free-Moves o

-- Where all calls made so far were allowed: memory obtained by any of the private build's allocation
-- functions, those of libc, of Windows' import symbols, of OpenSSL's hooks and asprintf_l included,
-- may be given to any of its release functions. All calls are allowed, so that memory of mimalloc is
-- released by mimalloc, and in the end exactly what was held before is held.
pub release-allocate-Owns :
    (a : Allocation) (r : Release) (env : Env) (w : World)
    → Safe w.trace
    → Owns [] (held w.trace) ((allocate a >>= release r) env w).1.trace
release-allocate-Owns a r env w s =
    (Moves->>= (allocate-Moves a) (release-Moves r)).run env w (held w.trace) (Safe-Owns s)

-- The outcome of asprintf_l: -1, `NULL` and nothing new held; or the number of bytes written, which
-- is at most the number measured, into a block of one byte more, which is held.
pub data Printed (f : Format) (rest : Resource → ℕ) : (ℤ × Option Ptr) × World → Type 0 where
  not_printed : {w : World} → Owns [] rest w.trace → Printed f rest ((negsuc 0, none), w)
  printed :
      (p : Ptr) (size n : ℕ) {w : World} {t : Trace}
      → n ≤ size
      → w.trace
        ≡ vsnprintf_l (some p) (size + 1) f (pos n)
          ∷ mi (mi_malloc (size + 1)) (some p)
          ∷ vsnprintf_l none 0 f (pos size)
          ∷ t
      → Owns (mi_block p ∷ []) rest w.trace
      → Printed f rest ((pos n, some p), w)

module _ (f : Format) (rest : Resource → ℕ) (env : Env) where
  written-Printed :
      (p : Ptr) (size : ℕ) (n : ℤ) {w : World} {t : Trace}
      → int_lt n (pos 0) || int_lt (pos size) n ≡ false
      → w.trace
        ≡ vsnprintf_l (some p) (size + 1) f n
          ∷ mi (mi_malloc (size + 1)) (some p)
          ∷ vsnprintf_l none 0 f (pos size)
          ∷ t
      → Owns (mi_block p ∷ []) rest w.trace
      → Printed f rest ((n, some p), w)
  written-Printed p size (pos n) h e o = printed p size n (ground arith) e o
  written-Printed p size (negsuc n) h e o = absurd (ground arith)

  print_into-Printed :
      (size : ℕ) (o : Option Ptr) (w : World) (t : Trace)
      → w.trace ≡ mi (mi_malloc (size + 1)) o ∷ vsnprintf_l none 0 f (pos size) ∷ t
      → Owns (got mi_block o []) rest w.trace
      → Printed f rest (Allocator.print_into f (pos size) o env w)
  unfolding Allocator.print_into Calls.set_errno_enomem Calls.vsnprintf_l ◌>>=◌ ◌>>◌ ask emit pure
  print_into-Printed size none w t e o =
      not_printed (record { safe = (o.safe, tt); exact = λ r. omega (arith, o.exact r) })
  print_into-Printed size (some p) w t e o =
      let o' = (vsnprintf_l-Moves [] (some p) (size + 1) f).run env w rest o in
      when-run (Printed f rest) _ _ _ env _
        (λ h. not_printed ((mi_free-Moves {P = []} (some p)).run env _ rest o'))
        (λ h. written-Printed p size _ {t = t} h (rw e refl) o')

  measured-Printed :
      (size : ℤ) (w : World) (t : Trace)
      → int_lt size (pos 0) ≡ false
      → w.trace ≡ vsnprintf_l none 0 f size ∷ t
      → Owns [] rest w.trace
      → Printed f rest
          ((Calls.mi (mi_malloc (pos_part size + 1)) >>= λ o. Allocator.print_into f size o) env w)
  unfolding ◌>>=◌ Calls.mi ask
  measured-Printed (pos size) w t h e o =
      print_into-Printed size _ _ t (rw e refl)
        ((mi-Moves {P = []} (mi_malloc (size + 1)) tt).run env w rest o)
  measured-Printed (negsuc size) w t h e o = absurd (ground arith)

  -- Where all calls made so far were allowed and `rest` is what is held, asprintf_l makes only
  -- allowed calls, whatever mimalloc and vsnprintf_l answer, and ends in one of two ways. It answers
  -- -1, stores `NULL` and holds nothing new; or it answers with the number of bytes that the second
  -- vsnprintf_l has written, at most the number that the first one measured, into a block that
  -- mi_malloc gave for one byte more, which it stores and holds.
  pub asprintf_l-Printed :
      (w : World) → Owns [] rest w.trace → Printed f rest (Allocator.asprintf_l f env w)
  unfolding Allocator.asprintf_l ◌>>=◌ Calls.vsnprintf_l ask pure
  asprintf_l-Printed w o =
      when-run (Printed f rest) _ _ _ env _
        (λ h. not_printed ((vsnprintf_l-Moves [] none 0 f).run env w rest o))
        (λ h.
          measured-Printed _ _ w.trace h refl ((vsnprintf_l-Moves [] none 0 f).run env w rest o))
