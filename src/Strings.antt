-- ===== src/Strings.antt =====
-- The pattern around GetStringUTFChars that jni/src/native_peer.c, native_channel.c and
-- native_track.c share: a nullable `jstring`, its characters while a call needs them, their release.
pub mod Ownership
pub mod Quiet
pub mod Asking
pub mod Exceptions
use libdatachannel_java.Prelude.{Option, none, some}
use libdatachannel_java.Native.Event.{Ptr, Ref}
use libdatachannel_java.Native.World.{M, pure, ◌>>=◌}
use libdatachannel_java.Native.Calls.{get_string_utf_chars, release_string_utf_chars}

-- `if (s != NULL) { c = GetStringUTFChars(s); if (c == NULL) fail; } next`, where `c` starts as
-- `NULL`.
unfoldable pub with_chars : {A : Type 0} → Option Ref → M A → (Option Ptr → M A) → M A
with_chars none fail next = next none
with_chars (some s) fail next = do
  c ← get_string_utf_chars s
  elim c [ none ↦ fail | some p ↦ next (some p) ]

-- `if (c != NULL) ReleaseStringUTFChars(s, c)`
unfoldable pub release_if_chars : Option Ref → Option Ptr → M (Unit {0})
release_if_chars s none = pure tt
release_if_chars s (some p) = release_string_utf_chars s (some p)

-- `if (s != NULL) ReleaseStringUTFChars(s, c)`
unfoldable pub release_if_string : Option Ref → Option Ptr → M (Unit {0})
release_if_string none c = pure tt
release_if_string (some s) c = release_string_utf_chars (some s) c
