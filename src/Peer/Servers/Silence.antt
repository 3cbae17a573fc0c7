-- ===== src/Peer/Servers/Silence.antt =====
-- The releases of the ICE servers, which read nothing from Java and ask nothing of rtc, and the
-- failures that end with them.
use libdatachannel_java.Prelude.{ℕ, suc, Option, none, List, [], ◌∷◌}
use libdatachannel_java.Native.Event.{Ptr}
use libdatachannel_java.Native.World.{pure, ◌>>◌}
use libdatachannel_java.Logic.Keeps.{Keeps, Keeps-pure, Keeps->>, Keeps-when}
use libdatachannel_java.Logic.Story.{
  story, Throws, Throws-native, Throws->>, free-story, release_string_utf_chars-story,
  delete_local_ref-story,
}
use libdatachannel_java.Util.{throw_failed_malloc}
use libdatachannel_java.Peer.Servers.{
  Slot, IceServers, release_if_set, release_before, release_through, release_slots, free_arrays,
  no_string, no_chars, release_ice_servers,
}

pub free_arrays-story : (a b : Option Ptr) → Keeps story (free_arrays a b)
unfolding free_arrays
free_arrays-story a b = Keeps->> (free-story a) (free-story b)

release_before-story : (ss : List Slot) → Keeps story (release_before ss)
unfolding release_before release_if_set
release_before-story [] = Keeps-pure tt
release_before-story (s ∷ ss) =
    Keeps->> (Keeps-when _ (release_string_utf_chars-story _ _) (Keeps-pure tt))
      (Keeps->> (delete_local_ref-story _) (release_before-story ss))

release_through-story : (i j : ℕ) (ss : List Slot) → Keeps story (release_through i j ss)
unfolding release_through
release_through-story i j [] = Keeps-pure tt
release_through-story i j (s ∷ ss) =
    Keeps->> (Keeps-when _ (release_string_utf_chars-story _ _) (Keeps-pure tt)) (
      Keeps->> (Keeps-when _ (delete_local_ref-story _) (Keeps-pure tt))
        (release_through-story i (suc j) ss))

release_slots-story : (ss : List Slot) → Keeps story (release_slots ss)
unfolding release_slots
release_slots-story [] = Keeps-pure tt
release_slots-story (s ∷ ss) =
    Keeps->> (release_string_utf_chars-story _ _)
      (Keeps->> (delete_local_ref-story _) (release_slots-story ss))

pub release_ice_servers-story : (s : IceServers) → Keeps story (release_ice_servers s)
unfolding release_ice_servers
release_ice_servers-story s =
    Keeps-when _ (Keeps->> (release_slots-story _) (free_arrays-story _ _)) (Keeps-pure tt)

pub no_string-Throws : (a b : Ptr) (ss : List Slot) → Throws (no_string a b ss) none
unfolding no_string
no_string-Throws a b ss =
    Throws->> (release_before-story ss) (Throws->> (free_arrays-story _ _) (Throws-native _))

pub no_chars-Throws : (a b : Ptr) (i : ℕ) (ss : List Slot) → Throws (no_chars a b i ss) none
unfolding no_chars
no_chars-Throws a b i ss =
    Throws->> (release_through-story i 0 ss) (Throws->> (free_arrays-story _ _) (Throws-native _))

pub no_arrays-Throws :
    (a b : Option Ptr)
    → Throws {A = Option IceServers}
        (free_arrays a b >> (throw_failed_malloc "config.iceServers" >> pure none))
        none
no_arrays-Throws a b = Throws->> (free_arrays-story a b) (Throws-native _)
