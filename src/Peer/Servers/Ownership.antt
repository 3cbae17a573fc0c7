-- ===== src/Peer/Servers/Ownership.antt =====
-- The ledger of the ICE servers, from the array to their release.
use libdatachannel_java.Prelude.{
  ℕ, zero, suc, ◌≡◌, refl, true, Option, none, some, List, [], ◌∷◌, ◌++◌, arith, is_some, ◌&&◌,
  length, length-append_one, sym,
}
use libdatachannel_java.Prelude.Int.{ℤ, pos, int_lt, pos_part}
use libdatachannel_java.Native.Event.{Ptr, Ref, Trace}
use libdatachannel_java.Native.World.{pure, ◌>>◌, when◌then◌else◌}
use libdatachannel_java.Logic.Ledger.{Resource, block, local_ref, count, AllLent}
use libdatachannel_java.Logic.Moves.{
  Moves, Moves-pure, Moves->>=, Moves->>, Moves-pre, Holds, got, Yields, Yields-pure, Yields->>=,
  Yields->>, Yields-when, Yields-from,
}
use libdatachannel_java.Logic.Rules.{
  malloc-Moves, free-Moves, free_null-Moves, get_array_length-Moves, read-Moves, when-Moves,
  get_object_array_element-Moves, get_string_utf_chars-Moves,
}
use libdatachannel_java.Util.Ownership.{fail-Moves}
use libdatachannel_java.Peer.Servers.{
  Slot, chars_of, IceServers, release_slots, free_arrays, no_string, no_chars, acquire_slots,
  fill_arrays, allocate_arrays, get_ice_servers, release_ice_servers,
}
use libdatachannel_java.Peer.Servers.Slots.{
  Full, slots, Full-append, count-slots-append, AllLent-chars_of, free_arrays-Moves,
  release_slots-Moves, half, release_before-Moves, release_through-Moves,
}

-- Both arrays, with what they hold.
abbrev arrays : Ptr → Ptr → List Resource → List Resource
arrays a b P = block a ∷ block b ∷ P

abbrev acquired : Ptr → Ptr → List Resource → Option (List Slot) → List Resource
acquired a b P none = P
acquired a b P (some ss) = slots ss (arrays a b P)

module _ {P : List Resource} (a b : Ptr) where
  no_string-Moves :
      (ss : List Slot)
      → Full ss
      → Moves (slots ss (arrays a b P)) (no_string a b ss) (acquired a b P)
  unfolding no_string
  no_string-Moves ss f =
      Moves->> (release_before-Moves ss f)
        (Moves->> (free_arrays-Moves a b) (fail-Moves _ none refl))

  no_chars-Moves :
      (i : ℕ) (ss : List Slot) (s : Ref)
      → i ≡ length ss
      → Full ss
      → Moves
          (local_ref s ∷ slots ss (arrays a b P))
          (no_chars a b i (ss ++ half s ∷ []))
          (acquired a b P)
  unfolding no_chars
  no_chars-Moves i ss s e f =
      Moves-pre (slots (ss ++ half s ∷ []) (arrays a b P))
        (λ r. sym (count-slots-append ss (half s) (arrays a b P) r))
        (Moves->> (release_through-Moves i 0 ss s (omega arith) f)
          (Moves->> (free_arrays-Moves a b) (fail-Moves _ none refl)))

  acquire_slots-Moves :
      (array : Ref) (left i : ℕ) (ss : List Slot)
      → i ≡ length ss
      → Full ss
      → Moves (slots ss (arrays a b P)) (acquire_slots array a b left i ss) (acquired a b P)
  unfolding acquire_slots
  acquire_slots-Moves array zero i ss e f = Moves-pure (some ss) refl
  acquire_slots-Moves array (suc left) i ss e f =
      Moves->>= (get_object_array_element-Moves array i) (elim [
        | none ↦ no_string-Moves ss f
        | some s ↦ Moves->>= (get_string_utf_chars-Moves s) (elim [
          | none ↦ no_chars-Moves i ss s e f
          | some p ↦
              let x : Slot = record { string = some s; chars = some p } in
              Moves-pre (slots (ss ++ x ∷ []) (arrays a b P))
                (λ r. sym (count-slots-append ss x (arrays a b P) r))
                (acquire_slots-Moves array left (suc i) (ss ++ x ∷ [])
                  (omega (arith, length-append_one ss x))
                  (Full-append ss (x ∷ []) f (refl, refl, tt)))
        ])
      ])

abbrev AllFull : Option (List Slot) → Type 0
AllFull none = Unit {0}
AllFull (some ss) = Full ss

acquire_slots-AllFull :
    (array : Ref) (a b : Ptr) (left i : ℕ) (ss : List Slot)
    → Full ss
    → Yields (acquire_slots array a b left i ss) AllFull
unfolding acquire_slots no_string no_chars
acquire_slots-AllFull array a b zero i ss f = Yields-pure (some ss) f
acquire_slots-AllFull array a b (suc left) i ss f = Yields->>= _ (elim [
  | none ↦ Yields->> _ (Yields->> _ (Yields->> _ (Yields-pure none tt)))
  | some s ↦ Yields->>= _ (elim [
    | none ↦ Yields->> _ (Yields->> _ (Yields->> _ (Yields-pure none tt)))
    | some p ↦
        let x : Slot = record { string = some s; chars = some p } in
        acquire_slots-AllFull array a b left (suc i) (ss ++ x ∷ [])
          (Full-append ss (x ∷ []) f (refl, refl, tt))
  ])
])

-- The arrays are both there, hold full slots and have a positive count, or there is nothing.
abbrev Consistent : Option Ptr → Option Ptr → ℤ → List Slot → Type 0
Consistent (some a) (some b) count ss = (int_lt (pos 0) count ≡ true) × Full ss
Consistent none none count ss = ss ≡ []
Consistent _ _ count ss = ⊥

abbrev pub IsConsistent : Option IceServers → Type 0
IsConsistent none = Unit {0}
IsConsistent (some s) = Consistent s.array s.strings s.count s.slots

abbrev owned : Option Ptr → Option Ptr → List Slot → List Resource → List Resource
owned (some a) (some b) ss P = slots ss (arrays a b P)
owned _ _ ss P = P

-- What `get_ice_servers` hands over besides `P`.
abbrev pub with_servers : List Resource → Option IceServers → List Resource
with_servers P none = P
with_servers P (some s) = owned s.array s.strings s.slots P

module _ {P : List Resource} where
  fill_arrays-Moves :
      (array : Ref) (n : ℤ) (a b : Option Ptr)
      → Moves (got block b (got block a P)) (fill_arrays array n a b) (with_servers P)
  unfolding fill_arrays free_arrays
  fill_arrays-Moves array n none none =
      Moves->> (Moves->> free_null-Moves free_null-Moves) (fail-Moves _ none refl)
  fill_arrays-Moves array n (some a) none =
      Moves->> (Moves->> (free-Moves a P (λ r. refl)) free_null-Moves) (fail-Moves _ none refl)
  fill_arrays-Moves array n none (some b) =
      Moves->> (Moves->> free_null-Moves (free-Moves b P (λ r. refl))) (fail-Moves _ none refl)
  fill_arrays-Moves array n (some a) (some b) =
      Moves-pre (arrays a b P) (λ r. omega arith)
        (Moves->>= (acquire_slots-Moves a b array (pos_part n) 0 [] refl tt)
          (elim [ none ↦ Moves-pure none refl | some ss ↦ Moves-pure _ refl ]))

  pub get_ice_servers-Moves : (s : Option Ref) → Moves P (get_ice_servers s) (with_servers P)
  unfolding get_ice_servers allocate_arrays
  get_ice_servers-Moves none = Moves-pure _ refl
  get_ice_servers-Moves (some array) = Moves->>= (get_array_length-Moves array) λ n.
      when-Moves _
        (Moves->>= (read-Moves _) λ size.
          Moves->>= (malloc-Moves _)
            λ a. Moves->>= (malloc-Moves _) λ b. fill_arrays-Moves array n a b)
        (Moves-pure _ refl)

  release_owned-Moves :
      (a b : Option Ptr) (n : ℤ) (ss : List Slot)
      → Consistent a b n ss
      → Moves
          (owned a b ss P)
          (when is_some a && int_lt (pos 0) n
            then (release_slots ss >> free_arrays a b)
            else pure tt)
          (λ _. P)
  unfolding when◌then◌else◌
  release_owned-Moves none none n ss c = Moves-pure tt refl
  release_owned-Moves none (some b) n ss c = absurd c
  release_owned-Moves (some a) none n ss c = absurd c
  release_owned-Moves (some a) (some b) n ss c =
      rw c.0 (Moves->> (release_slots-Moves ss c.1) (free_arrays-Moves a b))

  pub release_ice_servers-Moves :
      (s : IceServers)
      → IsConsistent (some s)
      → Moves (with_servers P (some s)) (release_ice_servers s) (λ _. P)
  unfolding release_ice_servers
  release_ice_servers-Moves s c = release_owned-Moves s.array s.strings s.count s.slots c

fill_arrays-IsConsistent :
    (array : Ref) (n : ℤ) (a b : Option Ptr)
    → int_lt (pos 0) n ≡ true
    → Yields (fill_arrays array n a b) IsConsistent
unfolding fill_arrays
fill_arrays-IsConsistent array n none none h = Yields->> _ (Yields->> _ (Yields-pure none tt))
fill_arrays-IsConsistent array n (some a) none h = Yields->> _ (Yields->> _ (Yields-pure none tt))
fill_arrays-IsConsistent array n none (some b) h = Yields->> _ (Yields->> _ (Yields-pure none tt))
fill_arrays-IsConsistent array n (some a) (some b) h =
    Yields-from (acquire_slots-AllFull array a b (pos_part n) 0 [] tt)
      (elim [ none ↦ λ f. Yields-pure none tt | some ss ↦ λ f. Yields-pure _ (h, f) ])

pub get_ice_servers-IsConsistent : (s : Option Ref) → Yields (get_ice_servers s) IsConsistent
unfolding get_ice_servers allocate_arrays
get_ice_servers-IsConsistent none = Yields-pure _ refl
get_ice_servers-IsConsistent (some array) = Yields->>= _ λ n.
    Yields-when _
      (λ h.
        Yields->>= _
          λ size. Yields->>= _ λ a. Yields->>= _ λ b. fill_arrays-IsConsistent array n a b h)
      (Yields-pure _ refl)

AllLent-owned :
    (a b : Option Ptr) (n : ℤ) (ss : List Slot) (P : List Resource) (t : Trace)
    → Consistent a b n ss
    → Holds (owned a b ss P) t
    → AllLent t (chars_of ss)
AllLent-owned none none n ss P t c h = rw c tt
AllLent-owned none (some b) n ss P t c h = absurd c
AllLent-owned (some a) none n ss P t c h = absurd c
AllLent-owned (some a) (some b) n ss P t c h = AllLent-chars_of ss t (arrays a b P) c.1 h

pub AllLent-servers :
    (s : IceServers) (P : List Resource) (t : Trace)
    → IsConsistent (some s)
    → Holds (with_servers P (some s)) t
    → AllLent t (chars_of s.slots)
AllLent-servers s P t c h = AllLent-owned s.array s.strings s.count s.slots P t c h
