-- ===== src/Jni.antt =====
-- The parts of jni/jdk that the native code relies on: the integer types of jni.h and of the two
-- jni_md.h, and the constants of jni.h.
pub mod Widths
use libdatachannel_java.Prelude.{ℕ, ◌+◌, ◌-◌, ◌%◌, ◌^◌, Bool, if◌then◌else◌, ltb}
use libdatachannel_java.Prelude.Int.{ℤ, pos, negsuc, pos_part, neg_part}

-- The types of C that jni.h and jni_md.h name.
pub data CType : Type 0 where
  signed_char unsigned_char short unsigned_short int long long_long int64 : CType

-- `lp64` is `_LP64`; `windows` chooses jni/jdk/windows/jni_md.h over jni/jdk/unix/jni_md.h.
pub record Platform : Type 0 where
  pub windows : Bool
  pub lp64 : Bool

-- The widths that compilers give to these types: `_LP64` is set where `long` has 64 bits.
abbrev pub bits : Platform → CType → ℕ
bits p signed_char = 8
bits p unsigned_char = 8
bits p short = 16
bits p unsigned_short = 16
bits p int = 32
bits p long = if p.lp64 then 64 else 32
bits p long_long = 64
bits p int64 = 64

-- The two jni_md.h.
abbrev pub jint_unix : CType
jint_unix = int

abbrev pub jint_windows : CType
jint_windows = long

abbrev pub jlong_unix : (lp64 : Bool) → CType
jlong_unix lp64 = if lp64 then long else long_long

abbrev pub jlong_windows : CType
jlong_windows = int64

abbrev pub jbyte_unix : CType
jbyte_unix = signed_char

abbrev pub jbyte_windows : CType
jbyte_windows = signed_char

-- The `jni_md.h` that the platform's build includes.
abbrev pub jint : Platform → CType
jint p = if p.windows then jint_windows else jint_unix

abbrev pub jlong : Platform → CType
jlong p = if p.windows then jlong_windows else jlong_unix p.lp64

abbrev pub jbyte : Platform → CType
jbyte p = if p.windows then jbyte_windows else jbyte_unix

abbrev pub jboolean : CType
jboolean = unsigned_char

abbrev pub jchar : CType
jchar = unsigned_short

abbrev pub jshort : CType
jshort = short

abbrev pub jsize : Platform → CType
jsize p = jint p

abbrev pub jni_false : ℕ
jni_false = 0

abbrev pub jni_true : ℕ
jni_true = 1

abbrev pub jni_ok : ℤ
jni_ok = pos 0

abbrev pub jni_err : ℤ
jni_err = negsuc 0

abbrev pub jni_edetached : ℤ
jni_edetached = negsuc 1

abbrev pub jni_eversion : ℤ
jni_eversion = negsuc 2

abbrev pub jni_enomem : ℤ
jni_enomem = negsuc 3

abbrev pub jni_eexist : ℤ
jni_eexist = negsuc 4

abbrev pub jni_einval : ℤ
jni_einval = negsuc 5

abbrev pub jni_version_1_6 : ℤ
jni_version_1_6 = pos 0x0001_0006

-- The value that a signed type of `w` bits has for an integer: two's complement.
pub wrap : (w : ℕ) → ℤ → ℤ
wrap w a =
    let u : ℕ = (pos_part a + 2 ^ w - neg_part a % 2 ^ w) % 2 ^ w in
    if ltb u (2 ^ (w - 1)) then pos u else negsuc (2 ^ w - 1 - u)
