-- ===== src/Peer/Servers/Quiet.antt =====
-- The listeners and user pointers under the ICE servers of rtcCreatePeerConnection.
use libdatachannel_java.Logic.Stays.{
  Stays, Stays-pure, Stays->>=, Stays->>, Stays-when, Stays-read, free-Stays, malloc-Stays,
  get_string_utf_chars-Stays, release_string_utf_chars-Stays, delete_local_ref-Stays,
  get_array_length-Stays, get_object_array_element-Stays,
}
use libdatachannel_java.Prelude.{ℕ, zero, suc, Option, none, some, List, [], ◌∷◌}
use libdatachannel_java.Prelude.Int.{ℤ}
use libdatachannel_java.Native.Event.{Ptr, Ref}
use libdatachannel_java.Native.World.{Env}
use libdatachannel_java.Util.Quiet.{fail-Stays}
use libdatachannel_java.Peer.Servers.{
  Slot, IceServers, release_if_set, release_before, release_through, release_slots, free_arrays,
  no_string, no_chars, acquire_slots, fill_arrays, allocate_arrays, get_ice_servers,
  release_ice_servers,
}

module _ {env : Env} {peer : ℤ} where
  release_if_set-Stays : (s : Slot) → Stays env peer (release_if_set s)
  unfolding release_if_set
  release_if_set-Stays s = Stays-when _ (release_string_utf_chars-Stays _ _) (Stays-pure tt)

  release_before-Stays : (ss : List Slot) → Stays env peer (release_before ss)
  unfolding release_before
  release_before-Stays [] = Stays-pure tt
  release_before-Stays (s ∷ ss) =
      Stays->> (release_if_set-Stays s)
        (Stays->> (delete_local_ref-Stays _) (release_before-Stays ss))

  release_through-Stays : (i j : ℕ) (ss : List Slot) → Stays env peer (release_through i j ss)
  unfolding release_through
  release_through-Stays i j [] = Stays-pure tt
  release_through-Stays i j (s ∷ ss) =
      Stays->> (Stays-when _ (release_string_utf_chars-Stays _ _) (Stays-pure tt)) (
        Stays->> (Stays-when _ (delete_local_ref-Stays _) (Stays-pure tt))
          (release_through-Stays i (suc j) ss))

  release_slots-Stays : (ss : List Slot) → Stays env peer (release_slots ss)
  unfolding release_slots
  release_slots-Stays [] = Stays-pure tt
  release_slots-Stays (s ∷ ss) =
      Stays->> (release_string_utf_chars-Stays _ _)
        (Stays->> (delete_local_ref-Stays _) (release_slots-Stays ss))

  free_arrays-Stays : (a b : Option Ptr) → Stays env peer (free_arrays a b)
  unfolding free_arrays
  free_arrays-Stays a b = Stays->> (free-Stays a) (free-Stays b)

  no_string-Stays : (a b : Ptr) (ss : List Slot) → Stays env peer (no_string a b ss)
  unfolding no_string
  no_string-Stays a b ss =
      Stays->> (release_before-Stays ss) (Stays->> (free_arrays-Stays _ _) (fail-Stays _ none))

  no_chars-Stays : (a b : Ptr) (i : ℕ) (ss : List Slot) → Stays env peer (no_chars a b i ss)
  unfolding no_chars
  no_chars-Stays a b i ss =
      Stays->> (release_through-Stays i 0 ss) (Stays->> (free_arrays-Stays _ _) (fail-Stays _ none))

  acquire_slots-Stays :
      (array : Ref) (a b : Ptr) (left i : ℕ) (ss : List Slot)
      → Stays env peer (acquire_slots array a b left i ss)
  unfolding acquire_slots
  acquire_slots-Stays array a b zero i ss = Stays-pure _
  acquire_slots-Stays array a b (suc left) i ss =
      Stays->>= (get_object_array_element-Stays array i) (elim [
        | none ↦ no_string-Stays a b ss
        | some s ↦ Stays->>= (get_string_utf_chars-Stays s) (elim [
          | none ↦ no_chars-Stays a b i _
          | some p ↦ acquire_slots-Stays array a b left (suc i) _
        ])
      ])

  fill_arrays-Stays :
      (array : Ref) (count : ℤ) (a b : Option Ptr) → Stays env peer (fill_arrays array count a b)
  unfolding fill_arrays
  fill_arrays-Stays array count (some a) (some b) =
      Stays->>= (acquire_slots-Stays array a b _ 0 [])
        (elim [ none ↦ Stays-pure none | some ss ↦ Stays-pure _ ])
  fill_arrays-Stays array count (some a) none = Stays->> (free_arrays-Stays _ _) (fail-Stays _ none)
  fill_arrays-Stays array count none b = Stays->> (free_arrays-Stays _ _) (fail-Stays _ none)

  pub get_ice_servers-Stays : (array : Option Ref) → Stays env peer (get_ice_servers array)
  unfolding get_ice_servers allocate_arrays
  get_ice_servers-Stays none = Stays-pure _
  get_ice_servers-Stays (some array) = Stays->>= (get_array_length-Stays array) λ count.
      Stays-when _
        (Stays->>= (Stays-read _) λ size.
          Stays->>= (malloc-Stays _)
            λ a. Stays->>= (malloc-Stays _) λ b. fill_arrays-Stays array count a b)
        (Stays-pure _)

  pub release_ice_servers-Stays : (s : IceServers) → Stays env peer (release_ice_servers s)
  unfolding release_ice_servers
  release_ice_servers-Stays s =
      Stays-when _ (Stays->> (release_slots-Stays _) (free_arrays-Stays _ _)) (Stays-pure tt)
