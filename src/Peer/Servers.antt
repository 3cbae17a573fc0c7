-- ===== src/Peer/Servers.antt =====
-- The ICE servers of rtcCreatePeerConnection in jni/src/native_peer.c: an array of Java strings
-- becomes an array of characters, and is released again. The elements of `serverStrings` and
-- `config.iceServers` are kept as a list of slots, one for each index that has been written.
pub mod Slots
pub mod Ownership
pub mod Quiet
pub mod Silence
pub mod Reading
pub mod Cost
use libdatachannel_java.Prelude.{
  ℕ, zero, suc, ◌*◌, Bool, Option, none, some, List, [], ◌∷◌, ◌++◌, map, ltb, ◌&&◌, is_some,
}
use libdatachannel_java.Prelude.Int.{ℤ, pos, pos_part, int_lt}
use libdatachannel_java.Native.Event.{Ptr, Ref}
use libdatachannel_java.Native.World.{M, pure, ◌>>=◌, ◌>>◌, when◌then◌else◌, read}
use libdatachannel_java.Native.Calls.{
  malloc, free, get_array_length, get_object_array_element, get_string_utf_chars,
  release_string_utf_chars, delete_local_ref,
}
use libdatachannel_java.Util.{throw_failed_get_str, throw_failed_malloc, throw_native_exception}

-- `serverStrings[j]` and `config.iceServers[j]`
pub record Slot : Type 0 where
  pub string : Option Ref
  pub chars : Option Ptr

abbrev pub chars_of : List Slot → List (Option Ptr)
chars_of [] = []
chars_of (s ∷ ss) = s.chars ∷ chars_of ss

-- `config.iceServers`, `serverStrings` and `config.iceServersCount`
pub record IceServers : Type 0 where
  pub array : Option Ptr
  pub strings : Option Ptr
  pub count : ℤ
  pub slots : List Slot

release_if_set : Slot → M (Unit {0})
release_if_set s = when is_some s.chars then release_string_utf_chars s.string s.chars else pure tt

-- The loop `j < i` after `serverStrings[i] == NULL`.
unfoldable pub release_before : List Slot → M (Unit {0})
unfolding release_if_set
release_before [] = pure tt
release_before (s ∷ ss) = do release_if_set s; delete_local_ref s.string; release_before ss

-- The loop `j <= i` after `config.iceServers[i] == NULL`, from index `j` on.
unfoldable pub release_through : (i j : ℕ) → List Slot → M (Unit {0})
release_through i j [] = pure tt
release_through i j (s ∷ ss) = do
  when ltb j i && is_some s.chars then release_string_utf_chars s.string s.chars else pure tt
  when is_some s.string then delete_local_ref s.string else pure tt
  release_through i (suc j) ss

-- The loop at the end, and in the other failures.
unfoldable pub release_slots : List Slot → M (Unit {0})
release_slots [] = pure tt
release_slots (s ∷ ss) = do
  release_string_utf_chars s.string s.chars
  delete_local_ref s.string
  release_slots ss

pub free_arrays : Option Ptr → Option Ptr → M (Unit {0})
free_arrays servers strings = do free servers; free strings

pub no_string : Ptr → Ptr → List Slot → M (Option (List Slot))
unfolding free_arrays
no_string servers strings acquired = do
  release_before acquired
  free_arrays (some servers) (some strings)
  throw_native_exception "Failed to get string from iceServers array!"
  pure none

pub no_chars : Ptr → Ptr → ℕ → List Slot → M (Option (List Slot))
unfolding free_arrays
no_chars servers strings i acquired = do
  release_through i 0 acquired
  free_arrays (some servers) (some strings)
  throw_failed_get_str "serverStrings"
  pure none

-- The loop over the array: `left` elements from index `i` on, with the slots below `i` filled.
-- `none` is `return EXCEPTION_THROWN`.
unfoldable pub acquire_slots :
    (array : Ref) (servers strings : Ptr) (left i : ℕ) → List Slot → M (Option (List Slot))
unfolding no_string no_chars
acquire_slots array servers strings zero i acquired = pure (some acquired)
acquire_slots array servers strings (suc left) i acquired = do
  string ← get_object_array_element array i
  elim string [
    | none ↦ no_string servers strings acquired
    | some s ↦ do
      chars ← get_string_utf_chars s
      elim chars [
        | none ↦
            no_chars servers strings i (acquired ++ (record { string = some s; chars = none }) ∷ [])
        | some p ↦
            acquire_slots array servers strings left (suc i)
              (acquired ++ (record { string = some s; chars = some p }) ∷ [])
      ]
  ]

fill_arrays : Ref → ℤ → Option Ptr → Option Ptr → M (Option IceServers)
unfolding acquire_slots
fill_arrays array count (some servers) (some strings) = do
  slots ← acquire_slots array servers strings (pos_part count) 0 []
  elim slots [
    | none ↦ pure none
    | some ss ↦
        pure (
          some (record { array = some servers; strings = some strings; count = count; slots = ss }))
  ]
fill_arrays array count servers strings = do
  free_arrays servers strings
  throw_failed_malloc "config.iceServers"
  pure none

allocate_arrays : Ref → ℤ → M (Option IceServers)
unfolding fill_arrays
allocate_arrays array count = do
  size ← read (λ env. env.sizeof_pointer)
  servers ← malloc (size * pos_part count)
  strings ← malloc (size * pos_part count)
  fill_arrays array count servers strings

-- `none` is `return EXCEPTION_THROWN`.
unfoldable pub get_ice_servers : Option Ref → M (Option IceServers)
unfolding allocate_arrays
get_ice_servers none =
    pure (some (record { array = none; strings = none; count = pos 0; slots = [] }))
get_ice_servers (some array) = do
  count ← get_array_length array
  when int_lt (pos 0) count
      then allocate_arrays array count
      else pure (some (record { array = none; strings = none; count = count; slots = [] }))

-- `if (config.iceServers != NULL && config.iceServersCount > 0)` and its body.
unfoldable pub release_ice_servers : IceServers → M (Unit {0})
unfolding free_arrays
release_ice_servers s =
    when is_some s.array && int_lt (pos 0) s.count
    then (do release_slots s.slots; free_arrays s.array s.strings)
    else pure tt
