-- ===== src/Allocator.antt =====
-- jni/src/private_malloc.c and the hooks of jni/src/private_allocator.cpp: in a build with a private
-- allocator, the allocation functions of libc and of OpenSSL are those of mimalloc.
pub mod Diagnostics
pub mod Ownership
pub mod Redirect
use libdatachannel_java.Prelude.{ℕ, ◌+◌, ◌||◌, Option, none, some, String}
use libdatachannel_java.Prelude.Int.{ℤ, pos, negsuc, pos_part, int_lt}
use libdatachannel_java.Native.Event.{
  Ptr, Format, mi_malloc, mi_calloc, mi_realloc, mi_strdup, mi_strndup, mi_aligned_alloc,
}
use libdatachannel_java.Native.World.{M, pure, ◌>>=◌, ◌>>◌, when◌then◌else◌}
use libdatachannel_java.Native.Calls.{mi, mi_posix_memalign, mi_free, vsnprintf_l, set_errno_enomem}

unfoldable pub malloc : ℕ → M (Option Ptr)
malloc size = mi (mi_malloc size)

unfoldable pub calloc : (count size : ℕ) → M (Option Ptr)
calloc count size = mi (mi_calloc count size)

unfoldable pub realloc : Option Ptr → ℕ → M (Option Ptr)
realloc memory size = mi (mi_realloc memory size)

unfoldable pub free : Option Ptr → M (Unit {0})
free memory = mi_free memory

unfoldable pub strdup : Option Ptr → M (Option Ptr)
strdup text = mi (mi_strdup text)

unfoldable pub strndup : Option Ptr → ℕ → M (Option Ptr)
strndup text size = mi (mi_strndup text size)

unfoldable pub aligned_alloc : (alignment size : ℕ) → M (Option Ptr)
aligned_alloc alignment size = mi (mi_aligned_alloc alignment size)

-- The code, and what is in `*memory`.
unfoldable pub posix_memalign : (alignment size : ℕ) → M (ℤ × Option Ptr)
posix_memalign alignment size = mi_posix_memalign alignment size

-- From `mi_malloc` on. The results are the return value and `*output`.
print_into : Format → ℤ → Option Ptr → M (ℤ × Option Ptr)
print_into f size none = do set_errno_enomem; pure (negsuc 0, none)
print_into f size (some memory) = do
  written ← vsnprintf_l (some memory) (pos_part size + 1) f
  when int_lt written (pos 0) || int_lt size written
      then (do mi_free (some memory); pure (negsuc 0, none))
      else pure (written, some memory)

-- The first call of `vsnprintf_l` measures, with a copy of the arguments.
unfoldable pub asprintf_l : Format → M (ℤ × Option Ptr)
unfolding print_into
asprintf_l f = do
  size ← vsnprintf_l none 0 f
  when int_lt size (pos 0)
      then pure (negsuc 0, none)
      else (do memory ← mi (mi_malloc (pos_part size + 1)); print_into f size memory)

-- The import-address symbols of the Windows build.
unfoldable pub imp_malloc : ℕ → M (Option Ptr)
imp_malloc size = mi (mi_malloc size)

unfoldable pub imp_calloc : (count size : ℕ) → M (Option Ptr)
imp_calloc count size = mi (mi_calloc count size)

unfoldable pub imp_realloc : Option Ptr → ℕ → M (Option Ptr)
imp_realloc memory size = mi (mi_realloc memory size)

unfoldable pub imp_free : Option Ptr → M (Unit {0})
imp_free memory = mi_free memory

unfoldable pub windows_strdup : Option Ptr → M (Option Ptr)
windows_strdup text = mi (mi_strdup text)

unfoldable pub imp_windows_strdup : Option Ptr → M (Option Ptr)
unfolding windows_strdup
imp_windows_strdup = windows_strdup

unfoldable pub imp_strdup : Option Ptr → M (Option Ptr)
unfolding strdup
imp_strdup = strdup

-- The hooks that OpenSSL is given; the file and the line are not used.
unfoldable pub crypto_malloc : ℕ → String → ℤ → M (Option Ptr)
crypto_malloc size file line = mi (mi_malloc size)

unfoldable pub crypto_realloc : Option Ptr → ℕ → String → ℤ → M (Option Ptr)
crypto_realloc memory size file line = mi (mi_realloc memory size)

unfoldable pub crypto_free : Option Ptr → String → ℤ → M (Unit {0})
crypto_free memory file line = mi_free memory
