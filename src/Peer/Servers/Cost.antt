-- ===== src/Peer/Servers/Cost.antt =====
-- How many calls the loops over the ICE servers make.
use libdatachannel_java.Prelude.{
  ℕ, zero, suc, ◌+◌, ◌*◌, ◌≤◌, Option, none, some, List, [], ◌∷◌, length, length-append_one, arith,
}
use libdatachannel_java.Prelude.Int.{ℤ, pos_part}
use libdatachannel_java.Native.Event.{Ptr, Ref, Trace}
use libdatachannel_java.Native.World.{Env}
use libdatachannel_java.Native.Calls
use libdatachannel_java.Logic.Costs.Calls.{
  Pays, Makes, Pays-pure, Pays-emit, Pays-ask, Pays-read, Pays->>=, Pays->>, Pays-more, Pays-when,
  fail-Pays,
}
use libdatachannel_java.Peer.Servers.{
  Slot, IceServers, release_if_set, release_before, release_through, release_slots, free_arrays,
  no_string, no_chars, acquire_slots, fill_arrays, allocate_arrays, get_ice_servers,
  release_ice_servers,
}

-- What slots cost to release.
abbrev pub debt : Option (List Slot) → ℕ
debt none = 0
debt (some ss) = 2 * length ss

abbrev pub servers_debt : Option IceServers → ℕ
servers_debt none = 0
servers_debt (some s) = 2 * length s.slots

module _ {env : Env} where
  release-Makes :
      {k : ℕ} (s p : Option ℕ) → 1 ≤ k → Makes k env (Calls.release_string_utf_chars s p)
  unfolding Calls.release_string_utf_chars
  release-Makes s p h = Pays-emit _ h

  delete-Makes : {k : ℕ} (s : Option Ref) → 1 ≤ k → Makes k env (Calls.delete_local_ref s)
  unfolding Calls.delete_local_ref
  delete-Makes s h = Pays-emit _ h

  free_arrays-Makes : (a b : Option Ptr) → Makes 2 env (free_arrays a b)
  unfolding free_arrays Calls.free
  free_arrays-Makes a b =
      Pays->> 1 1 (omega arith) (Pays-emit _ (omega arith)) (Pays-emit _ (omega arith))

  release_before-Makes : (ss : List Slot) → Makes (2 * length ss) env (release_before ss)
  unfolding release_before release_if_set
  release_before-Makes [] = Pays-pure tt (omega arith)
  release_before-Makes (s ∷ ss) =
      Pays->> 1 (1 + 2 * length ss) (omega arith)
        (Pays-when _ (release-Makes _ _ (omega arith)) (Pays-pure tt (omega arith)))
        (Pays->> 1 (2 * length ss) (omega arith) (delete-Makes _ (omega arith))
          (release_before-Makes ss))

  release_through-Makes :
      (i j : ℕ) (ss : List Slot) → Makes (2 * length ss) env (release_through i j ss)
  unfolding release_through
  release_through-Makes i j [] = Pays-pure tt (omega arith)
  release_through-Makes i j (s ∷ ss) =
      Pays->> 1 (1 + 2 * length ss) (omega arith)
        (Pays-when _ (release-Makes _ _ (omega arith)) (Pays-pure tt (omega arith)))
        (Pays->> 1 (2 * length ss) (omega arith)
          (Pays-when _ (delete-Makes _ (omega arith)) (Pays-pure tt (omega arith)))
          (release_through-Makes i (suc j) ss))

  release_slots-Makes : (ss : List Slot) → Makes (2 * length ss) env (release_slots ss)
  unfolding release_slots
  release_slots-Makes [] = Pays-pure tt (omega arith)
  release_slots-Makes (s ∷ ss) =
      Pays->> 1 (1 + 2 * length ss) (omega arith) (release-Makes _ _ (omega arith)) (
        Pays->> 1 (2 * length ss) (omega arith) (delete-Makes _ (omega arith))
          (release_slots-Makes ss))

  pub release_ice_servers-Makes :
      (s : IceServers) → Makes (2 * length s.slots + 2) env (release_ice_servers s)
  unfolding release_ice_servers
  release_ice_servers-Makes s =
      Pays-when _
        (Pays->> (2 * length s.slots) 2 (omega arith) (release_slots-Makes _)
          (free_arrays-Makes _ _))
        (Pays-pure tt (omega arith))

  no_string-Pays :
      (a b : Ptr) (ss : List Slot) → Pays debt (2 * length ss + 3) env (no_string a b ss)
  unfolding no_string
  no_string-Pays a b ss =
      Pays->> (2 * length ss) 3 (omega arith) (release_before-Makes ss)
        (Pays->> 2 1 (omega arith) (free_arrays-Makes _ _) (fail-Pays _ none (omega arith)))

  no_chars-Pays :
      (a b : Ptr) (i : ℕ) (ss : List Slot) → Pays debt (2 * length ss + 3) env (no_chars a b i ss)
  unfolding no_chars
  no_chars-Pays a b i ss =
      Pays->> (2 * length ss) 3 (omega arith) (release_through-Makes i 0 ss)
        (Pays->> 2 1 (omega arith) (free_arrays-Makes _ _) (fail-Pays _ none (omega arith)))

  -- Four calls for each element that is left: two to acquire it and two to release it.
  acquire_slots-Pays :
      (array : Ref) (a b : Ptr) (left i : ℕ) (ss : List Slot)
      → Pays debt (4 * left + 2 * length ss + 3) env (acquire_slots array a b left i ss)
  unfolding acquire_slots Calls.get_object_array_element Calls.get_string_utf_chars
  acquire_slots-Pays array a b zero i ss = Pays-pure _ (omega arith)
  acquire_slots-Pays array a b (suc left) i ss =
      Pays->>= {φ = λ _. 0} 1 (4 * left + 2 * length ss + 6) (omega arith)
        (Pays-ask _ _ (λ t. omega arith))
        (elim [
          | none ↦ Pays-more (omega arith) (no_string-Pays a b ss)
          | some s ↦
              Pays->>= {φ = λ _. 0} 1 (4 * left + 2 * length ss + 5) (omega arith)
                (Pays-ask _ _ (λ t. omega arith))
                (elim [
                  | none ↦
                      let e = length-append_one ss (record { string = some s; chars = none }) in
                      Pays-more (omega arith) (no_chars-Pays a b i _)
                  | some p ↦
                      let e = length-append_one ss (record { string = some s; chars = some p }) in
                      Pays-more (omega arith) (acquire_slots-Pays array a b left (suc i) _)
                ])
        ])

  fill_arrays-Pays :
      (array : Ref) (count : ℤ) (a b : Option Ptr)
      → Pays servers_debt (4 * pos_part count + 3) env (fill_arrays array count a b)
  unfolding fill_arrays
  fill_arrays-Pays array count (some a) (some b) =
      Pays->>= (4 * pos_part count + 3) 0 (omega arith)
        (Pays-more (omega arith) (acquire_slots-Pays array a b _ 0 []))
        (elim [ none ↦ Pays-pure _ (omega arith) | some ss ↦ Pays-pure _ (omega arith) ])
  fill_arrays-Pays array count (some a) none =
      Pays->> 2 1 (omega arith) (free_arrays-Makes _ _) (fail-Pays _ none (omega arith))
  fill_arrays-Pays array count none b =
      Pays->> 2 1 (omega arith) (free_arrays-Makes _ _) (fail-Pays _ none (omega arith))

  allocate_arrays-Pays :
      (array : Ref) (count : ℤ)
      → Pays servers_debt (4 * pos_part count + 5) env (allocate_arrays array count)
  unfolding allocate_arrays Calls.malloc
  allocate_arrays-Pays array count =
      Pays->>= 0 (4 * pos_part count + 5) (omega arith) (Pays-read _) λ size.
        Pays->>= {φ = λ _. 0} 1 (4 * pos_part count + 4) (omega arith)
          (Pays-ask _ _ (λ t. omega arith))
          λ a.
            Pays->>= {φ = λ _. 0} 1 (4 * pos_part count + 3) (omega arith)
              (Pays-ask _ _ (λ t. omega arith))
              λ b. Pays-more (omega arith) (fill_arrays-Pays array count a b)

  pub get_ice_servers-Pays :
      (n : ℕ)
      → ((t : Trace) (a : Ref) → pos_part (env.get_array_length t a) ≤ n)
      → (array : Option Ref) → Pays servers_debt (4 * n + 6) env (get_ice_servers array)
  unfolding get_ice_servers Calls.get_array_length
  get_ice_servers-Pays n h none = Pays-pure _ (omega arith)
  get_ice_servers-Pays n h (some array) =
      Pays->>= {φ = λ count. 4 * pos_part count} (4 * n + 1) 5 (omega arith)
        (Pays-ask _ _ (λ t. let l = h t array in omega arith))
        λ count. Pays-when _ (allocate_arrays-Pays array count) (Pays-pure _ (omega arith))
