-- ===== src/Jni/Widths.antt =====
-- The widths of the types of jni.h on the platforms of the library.
use libdatachannel_java.Prelude.{ℕ, ◌+◌, ◌-◌, ◌%◌, ◌<◌, ◌≤◌, ◌^◌, ◌≡◌, false, ◌&&◌, arith}
use libdatachannel_java.Prelude.Int.{ℤ, pos, negsuc, pos_part, neg_part}
use libdatachannel_java.Jni.{Platform, bits, jint, jlong, wrap}

-- On Windows `long` has 32 bits.
abbrev pub IsSupported : Platform → Type 0
IsSupported p = p.windows && p.lp64 ≡ false

pub bits-jint : (p : Platform) → IsSupported p → bits p (jint p) ≡ 32
bits-jint p h = ground arith

pub bits-jlong : (p : Platform) → bits p (jlong p) ≡ 64
bits-jlong p = ground arith

-- A value that fits is kept.
pub wrap-fits : (a : ℤ) → pos_part a < 2 ^ 63 → neg_part a ≤ 2 ^ 63 → wrap 64 a ≡ a
unfolding wrap
wrap-fits (pos n) h k = ground arith
wrap-fits (negsuc n) h k = ground arith

-- A cast to `jlong` looks at 64 bits.
pub wrap-mod : (c t : ℕ) → c ≡ t % 2 ^ 64 → wrap 64 (pos c) ≡ wrap 64 (pos t)
unfolding wrap
wrap-mod c t e =
    let same_bits : (c + 2 ^ 64 - 0 % 2 ^ 64) % 2 ^ 64 ≡ (t + 2 ^ 64 - 0 % 2 ^ 64) % 2 ^ 64 =
      omega arith in
    rw same_bits
