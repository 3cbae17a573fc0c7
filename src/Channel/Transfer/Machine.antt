-- ===== src/Channel/Transfer/Machine.antt =====
-- The tests of rtcSendMessage and rtcReceiveMessageInto in the arithmetic of `jlong`.
use libdatachannel_java.Prelude.{◌<◌, ◌≤◌, ◌^◌, ◌≡◌, ap, subst, ◌-◌, Bool, ◌&&◌, ◌||◌, arith}
use libdatachannel_java.Prelude.Int.{ℤ, pos, pos_part, neg_part, ◌+ℤ◌, int_le, int_lt}
use libdatachannel_java.Jni.{Platform, bits, jint, jlong, wrap}
use libdatachannel_java.Jni.Widths.{IsSupported, bits-jint, bits-jlong, wrap-fits}
use libdatachannel_java.Channel.Transfer.{bad_length, bad_range}

-- `(jlong) a + (jlong) b`
abbrev jlong_add : Platform → ℤ → ℤ → ℤ
jlong_add p a b = wrap (bits p (jlong p)) (a +ℤ b)

abbrev pub bad_length_jlong : Platform → (capacity offset length : ℤ) → Bool
bad_length_jlong p capacity offset length =
    int_le (pos 0) length && int_lt capacity (jlong_add p offset length)

abbrev pub bad_range_jlong : Platform → (buffer_capacity offset capacity : ℤ) → Bool
bad_range_jlong p buffer_capacity offset capacity =
    int_lt buffer_capacity (pos 0)
    || (int_lt offset (pos 0)
        || (int_lt capacity (pos 0)
            || (int_lt buffer_capacity offset
                || int_lt buffer_capacity (jlong_add p offset capacity))))

-- The values of `jint`.
abbrev pub IsJint : Platform → ℤ → Type 0
IsJint p a = (pos_part a < 2 ^ (bits p (jint p) - 1)) × (neg_part a ≤ 2 ^ (bits p (jint p) - 1))

Is32 : ℤ → Type 0
Is32 a = (pos_part a < 2 ^ 31) × (neg_part a ≤ 2 ^ 31)

IsJint-Is32 : (p : Platform) (a : ℤ) → IsSupported p → IsJint p a → Is32 a
unfolding Is32
IsJint-Is32 p a s h =
    subst (λ b. (pos_part a < 2 ^ (b - 1)) × (neg_part a ≤ 2 ^ (b - 1))) (bits-jint p s) h

sum_fits : (a b : ℤ) → Is32 a → Is32 b → (pos_part (a +ℤ b) < 2 ^ 63) × (neg_part (a +ℤ b) ≤ 2 ^ 63)
unfolding Is32
sum_fits a b h k = ground arith

jlong_add-eq-add : (p : Platform) (a b : ℤ) → Is32 a → Is32 b → jlong_add p a b ≡ a +ℤ b
jlong_add-eq-add p a b h k =
    let (f, g) = sum_fits a b h k in rw (bits-jlong p) (wrap-fits (a +ℤ b) f g)

-- On every platform whose `long` has 32 bits if it is Windows, for any capacity and for an offset
-- and a length that are `jint`s, the tests that add the two as `jlong` decide the same as the tests
-- that add integers: the sum does not wrap around.
pub bad_jlong-eq-bad :
    (p : Platform) (k o n : ℤ)
    → IsSupported p
    → IsJint p o
    → IsJint p n
    → (bad_length_jlong p k o n ≡ bad_length k o n) × (bad_range_jlong p k o n ≡ bad_range k o n)
bad_jlong-eq-bad p k o n s h l =
    let e = jlong_add-eq-add p o n (IsJint-Is32 p o s h) (IsJint-Is32 p n s l) in
    (
      ap (λ x. int_le (pos 0) n && int_lt k x) e,
      ap
          (λ x.
            int_lt k (pos 0)
            || (int_lt o (pos 0) || (int_lt n (pos 0) || (int_lt k o || int_lt k x))))
          e,
    )
