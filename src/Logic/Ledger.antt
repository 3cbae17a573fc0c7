-- ===== src/Logic/Ledger.antt =====
-- The resources that the calls of a trace have obtained and not given back, and the rules of libc
-- and JNI on their use.
use mathlib.Core.Logic.{if_pos}
use libdatachannel_java.Prelude.Int.{int_eq, pos}
use libdatachannel_java.Logic.Buffers.{IsReadable, IsWritable}
use libdatachannel_java.Prelude.{
  if◌then◌else◌, ℕ, ◌+◌, ◌-◌, ◌≤◌, ◌≡◌, refl, Option, none, some, List, [], ◌∷◌, ite, ℕ_discrete,
}
use libdatachannel_java.Native.Event.{
  mi, mi_posix_memalign, mi_free, mi_realloc, vsnprintf_l, Ptr, Ref, Event, RtcCall,
  rtc_create_peer_connection, rtc_set_local_description, rtc_set_remote_description,
  rtc_add_remote_candidate, rtc_get_string, rtc_get_selected_candidate_pair,
  rtc_create_data_channel_ex, rtc_add_track, rtc_send_message, rtc_receive_message,
  new_string_of_block, malloc, free, load, store, get_object_array_element, get_string_utf_chars,
  release_string_utf_chars, delete_local_ref, new_global_ref, delete_global_ref, new_string_utf,
  new_direct_byte_buffer, find_class, java_allocate, parse_candidate_pair, create_reliability, rtc,
  Trace,
}

-- `mi_block` is memory of mimalloc, which libc must not release, nor mimalloc that of libc.
pub data Resource : Type 0 where
  block mi_block : Ptr → Resource
  chars : Ref → Ptr → Resource
  local_ref global_ref : Ref → Resource

Resource-discrete : Discrete Resource
Resource-discrete = hlevel ℕ_discrete

-- 1 at the resource itself, 0 elsewhere.
pub one : Resource → Resource → ℕ
one x r = ite (Resource-discrete x r) 1 0

pub one_self : (x : Resource) → one x x ≡ 1
unfolding one
one_self x = rw (if_pos (Resource-discrete x x) refl)

-- How often a resource stands in a list.
abbrev pub count : List Resource → Resource → ℕ
count [] r = 0
count (x ∷ xs) r = one x r + count xs r

abbrev pub of_option : (Ref → Resource) → Option Ref → List Resource
of_option f none = []
of_option f (some a) = f a ∷ []

-- What a call obtains.
abbrev pub gain : Event → List Resource
gain (malloc n p) = of_option block p
gain (mi c p) = of_option mi_block p
gain (mi_posix_memalign a s n p) = if int_eq n (pos 0) then of_option mi_block p else []
gain (get_string_utf_chars s p) = of_option (chars s) p
gain (get_object_array_element a i r) = of_option local_ref r
gain (new_global_ref r g) = of_option global_ref g
gain (new_string_utf p r) = of_option local_ref r
gain (new_string_of_block p r) = of_option local_ref r
gain (new_direct_byte_buffer p n r) = of_option local_ref r
gain (find_class s r) = of_option local_ref r
gain (java_allocate n r) = of_option local_ref r
gain (parse_candidate_pair l r p) = of_option local_ref p
gain (create_reliability r p) = of_option local_ref p
gain _ = []

-- What a call gives back.
abbrev pub loss : Event → List Resource
loss (free p) = of_option block p
loss (mi_free p) = of_option mi_block p
loss (mi (mi_realloc (some p) n) (some q)) = mi_block p ∷ []
loss (release_string_utf_chars (some s) (some p)) = chars s p ∷ []
loss (delete_local_ref r) = of_option local_ref r
loss (delete_global_ref r) = of_option global_ref r
loss _ = []

-- How many of a resource the trace has left.
abbrev pub held : Trace → Resource → ℕ
held [] r = 0
held (e ∷ t) r = held t r + count (gain e) r - count (loss e) r

abbrev pub Has : Trace → Resource → Type 0
Has t r = 1 ≤ held t r

-- Characters that a string still lends.
abbrev pub Lent : Trace → Option Ptr → Type 0
Lent t none = Unit {0}
Lent t (some p) = (s : Ref) × Has t (chars s p)

abbrev pub AllLent : Trace → List (Option Ptr) → Type 0
AllLent t [] = Unit {0}
AllLent t (none ∷ ps) = ⊥
AllLent t (some p ∷ ps) = Lent t (some p) × AllLent t ps

-- The memory that a call of rtc reads or writes: characters and blocks are held, and messages are in
-- direct buffers.
abbrev pub LiveArguments : Trace → RtcCall → Type 0
LiveArguments t (rtc_create_peer_connection c) =
    AllLent t c.ice_servers × Lent t c.proxy_server × Lent t c.bind_address
LiveArguments t (rtc_set_local_description h p) = Lent t p
LiveArguments t (rtc_set_remote_description h sdp p) = Lent t (some sdp) × Lent t p
LiveArguments t (rtc_add_remote_candidate h c m) = Lent t c × Lent t m
LiveArguments t (rtc_get_string g h none n) = Unit {0}
LiveArguments t (rtc_get_string g h (some p) n) = Has t (block p)
LiveArguments t (rtc_get_selected_candidate_pair h l m r n) = Has t (block l) × Has t (block r)
LiveArguments t (rtc_create_data_channel_ex h l i) = Lent t l × Lent t i.protocol
LiveArguments t (rtc_add_track h p) = Lent t p
LiveArguments t (rtc_send_message h p n) = IsReadable t p n
LiveArguments t (rtc_receive_message h none n) = Unit {0}
LiveArguments t (rtc_receive_message h (some p) n) = IsWritable t p n
LiveArguments t _ = Unit {0}

-- A call gives back only what is held, and touches only memory that is held. `free(NULL)` and
-- `DeleteLocalRef(NULL)` do nothing.
abbrev pub Allowed : Trace → Event → Type 0
Allowed t (free none) = Unit {0}
Allowed t (free (some p)) = Has t (block p)
Allowed t (mi_free none) = Unit {0}
Allowed t (mi_free (some p)) = Has t (mi_block p)
Allowed t (mi (mi_realloc (some p) n) q) = Has t (mi_block p)
Allowed t (vsnprintf_l (some p) n f r) = Has t (mi_block p)
Allowed t (release_string_utf_chars (some s) (some p)) = Has t (chars s p)
Allowed t (release_string_utf_chars _ _) = ⊥
Allowed t (delete_local_ref none) = Unit {0}
Allowed t (delete_local_ref (some r)) = Has t (local_ref r)
Allowed t (delete_global_ref none) = ⊥
Allowed t (delete_global_ref (some r)) = Has t (global_ref r)
Allowed t (parse_candidate_pair l m r) = Has t (block l) × Has t (block m)
Allowed t (new_string_of_block p r) = Has t (block p)
Allowed t (load p) = Has t (block p)
Allowed t (store p) = Has t (block p)
Allowed t (rtc c n) = LiveArguments t c
Allowed t _ = Unit {0}

-- Every call of the trace was allowed when it was made: no double free, no double release, and no use
-- of a block or of characters that were given back, by rtc, by the JVM or by the code. Of memory that
-- is not the code's own (literals, arrays on the stack, what rtc gives to a handler) nothing is said.
abbrev pub Safe : Trace → Type 0
Safe [] = Unit {0}
Safe (e ∷ t) = Safe t × Allowed t e
