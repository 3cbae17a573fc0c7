-- ===== src/Logic/Buffers.antt =====
-- Where the memory that rtc gets lies relative to the direct buffers that Java has given.
use libdatachannel_java.Prelude.{◌+◌, ◌≤◌, ◌≡◌, ◌⊎◌, some, [], ◌∷◌}
use libdatachannel_java.Prelude.Int.{ℤ, pos, negsuc, pos_part, ◌≤ℤ◌}
use libdatachannel_java.Native.Event.{
  Ptr, Ref, Event, Trace, get_direct_buffer_address, get_direct_buffer_capacity, java_allocate,
}

-- The call was made, with this answer.
abbrev pub Recorded : Event → Trace → Type 0
Recorded e [] = ⊥
Recorded e (x ∷ t) = (x ≡ e) ⊎ Recorded e t

-- The JVM has said that a direct buffer has `capacity` bytes from `base` on.
pub record IsBuffer (t : Trace) (base : Ptr) (capacity : ℤ) : Type 0 where
  pub buffer : Ref
  pub at_base : Recorded (get_direct_buffer_address buffer (some base)) t
  pub of_capacity : Recorded (get_direct_buffer_capacity buffer capacity) t

-- The `n` bytes at `p` are among them.
pub record Inside (t : Trace) (p : Ptr) (n : ℤ) : Type 0 where
  pub base : Ptr
  pub capacity : ℤ
  pub known : IsBuffer t base capacity
  pub not_negative : pos 0 ≤ℤ n
  pub starts : base ≤ p
  pub ends : p + pos_part n ≤ base + pos_part capacity

-- `p` is one of them or the end. The code does not look for the 0 that ends a text.
pub record StartsInside (t : Trace) (p : Ptr) : Type 0 where
  pub base : Ptr
  pub capacity : ℤ
  pub known : IsBuffer t base capacity
  pub starts : base ≤ p
  pub ends : p ≤ base + pos_part capacity

-- Java has allocated a buffer of `n` bytes, and they are at `p`.
pub record IsNewBuffer (t : Trace) (p : Ptr) (n : ℤ) : Type 0 where
  pub buffer : Ref
  pub of_size : Recorded (java_allocate n (some buffer)) t
  pub at_start : Recorded (get_direct_buffer_address buffer (some p)) t

-- What rtc may read as a message: bytes in a buffer, or a text that starts in one.
abbrev pub IsReadable : Trace → Ptr → ℤ → Type 0
IsReadable t p (pos n) = Inside t p (pos n)
IsReadable t p (negsuc n) = StartsInside t p

-- Where rtc may write a message of up to `n` bytes.
abbrev pub IsWritable : Trace → Ptr → ℤ → Type 0
IsWritable t p n = Inside t p n ⊎ IsNewBuffer t p n
