-- ===== src/Peer/Servers/Slots.antt =====
-- The slots of the ICE servers: what they hold, and the ledger of the loops that release them.
use libdatachannel_java.Prelude.{
  ℕ, suc, ◌+◌, ◌≡◌, refl, Bool, true, false, Option, none, some, List, [], ◌∷◌, ◌++◌, arith, ltb,
  is_some, ◌&&◌, length,
}
use libdatachannel_java.Native.Event.{Ptr, Ref, Trace}
use libdatachannel_java.Native.World.{M, pure, ◌>>◌, when◌then◌else◌}
use libdatachannel_java.Native.Calls.{release_string_utf_chars, delete_local_ref}
use libdatachannel_java.Logic.Ledger.{Resource, block, chars, local_ref, count, one_self, AllLent}
use libdatachannel_java.Logic.Moves.{Moves, Moves-pure, Moves->>, Holds}
use libdatachannel_java.Logic.Rules.{
  free-Moves, release_string_utf_chars-Moves, delete_local_ref-Moves,
}
use libdatachannel_java.Peer.Servers.{
  Slot, chars_of, release_if_set, release_before, release_through, release_slots, free_arrays,
}

-- Both pointers of every slot are set.
abbrev pub Full : List Slot → Type 0
Full [] = Unit {0}
Full (s ∷ ss) = (is_some s.string ≡ true) × (is_some s.chars ≡ true) × Full ss

abbrev pub slot : Option Ref → Option Ptr → List Resource → List Resource
slot (some s) (some p) P = chars s p ∷ local_ref s ∷ P
slot (some s) none P = local_ref s ∷ P
slot none p P = P

abbrev pub slots : List Slot → List Resource → List Resource
slots [] P = P
slots (s ∷ ss) P = slot s.string s.chars (slots ss P)

pub Full-append : (ss ts : List Slot) → Full ss → Full ts → Full (ss ++ ts)
Full-append [] ts f g = g
Full-append (s ∷ ss) ts f g = (f.0, f.1, Full-append ss ts f.2 g)

count-slot :
    (s : Option Ref) (p : Option Ptr) (P : List Resource) (r : Resource)
    → count (slot s p P) r ≡ count (slot s p []) r + count P r
count-slot none p P r = omega arith
count-slot (some s) none P r = omega arith
count-slot (some s) (some p) P r = omega arith

-- A new slot at the end of the list is one more resource, whatever the order.
pub count-slots-append :
    (ss : List Slot) (s : Slot) (P : List Resource) (r : Resource)
    → count (slots (ss ++ s ∷ []) P) r ≡ count (slot s.string s.chars (slots ss P)) r
count-slots-append [] s P r = refl
count-slots-append (x ∷ ss) s P r = omega (
  arith,
  count-slots-append ss s P r,
  count-slot x.string x.chars (slots (ss ++ s ∷ []) P) r,
  count-slot x.string x.chars (slots ss P) r,
  count-slot s.string s.chars (slot x.string x.chars (slots ss P)) r,
  count-slot s.string s.chars (slots ss P) r,
)

AllLent-slot :
    (s : Option Ref) (p : Option Ptr) (ps : List (Option Ptr)) (t : Trace) (P : List Resource)
    → is_some s ≡ true
    → is_some p ≡ true
    → Holds (slot s p P) t
    → (Holds P t → AllLent t ps)
    → AllLent t (p ∷ ps)
AllLent-slot none p ps t P e e' h tail = cc
AllLent-slot (some s) none ps t P e e' h tail = cc
AllLent-slot (some s) (some p) ps t P e e' h tail =
    ((s, omega (arith, h (chars s p), one_self (chars s p))), tail (λ r. omega (arith, h r)))

-- The characters of full slots may be handed to rtc while the slots are held.
pub AllLent-chars_of :
    (ss : List Slot) (t : Trace) (P : List Resource)
    → Full ss
    → Holds (slots ss P) t
    → AllLent t (chars_of ss)
AllLent-chars_of [] t P f h = tt
AllLent-chars_of (x ∷ ss) t P f h =
    AllLent-slot x.string x.chars (chars_of ss) t (slots ss P) f.0 f.1 h
      (AllLent-chars_of ss t P f.2)

module _ {P : List Resource} where
  release_slot-Moves :
      (s : Option Ref) (p : Option Ptr) {k : M (Unit {0})} {Q : List Resource}
      → is_some s ≡ true
      → is_some p ≡ true
      → Moves P k (λ _. Q)
      → Moves (slot s p P) (release_string_utf_chars s p >> (delete_local_ref s >> k)) (λ _. Q)
  release_slot-Moves none p e e' h = cc
  release_slot-Moves (some s) none e e' h = cc
  release_slot-Moves (some s) (some p) e e' h =
      Moves->> (release_string_utf_chars-Moves s p (local_ref s ∷ P) (λ r. refl))
        (Moves->> (delete_local_ref-Moves s P (λ r. refl)) h)

  pub free_arrays-Moves :
      (a b : Ptr) → Moves (block a ∷ block b ∷ P) (free_arrays (some a) (some b)) (λ _. P)
  unfolding free_arrays
  free_arrays-Moves a b =
      Moves->> (free-Moves a (block b ∷ P) (λ r. refl)) (free-Moves b P (λ r. refl))

module _ {P : List Resource} where
  pub release_slots-Moves :
      (ss : List Slot) → Full ss → Moves (slots ss P) (release_slots ss) (λ _. P)
  unfolding release_slots
  release_slots-Moves [] f = Moves-pure tt refl
  release_slots-Moves (s ∷ ss) f =
      release_slot-Moves s.string s.chars f.0 f.1 (release_slots-Moves ss f.2)

  release_if_set-Moves :
      (s : Option Ref) (p : Option Ptr) {k : M (Unit {0})} {Q : List Resource}
      → is_some s ≡ true
      → is_some p ≡ true
      → Moves P k (λ _. Q)
      → Moves
          (slot s p P)
          ((when is_some p then release_string_utf_chars s p else pure tt)
            >> (delete_local_ref s >> k))
          (λ _. Q)
  unfolding when◌then◌else◌
  release_if_set-Moves s none e e' h = cc
  release_if_set-Moves s (some p) e e' h = release_slot-Moves s (some p) e e' h

  -- A full slot below `i`.
  release_full-Moves :
      (b : Bool) (s : Option Ref) (p : Option Ptr) {k : M (Unit {0})} {Q : List Resource}
      → b ≡ true
      → is_some s ≡ true
      → is_some p ≡ true
      → Moves P k (λ _. Q)
      → Moves
          (slot s p P)
          ((when b && is_some p then release_string_utf_chars s p else pure tt)
            >> ((when is_some s then delete_local_ref s else pure tt) >> k))
          (λ _. Q)
  unfolding when◌then◌else◌
  release_full-Moves true none p t e e' h = cc
  release_full-Moves true (some s) none t e e' h = cc
  release_full-Moves true (some s) (some p) t e e' h = release_slot-Moves (some s) (some p) e e' h
  release_full-Moves false s p t e e' h = cc

  -- The slot at `i`.
  release_last-Moves :
      (b : Bool) (s : Ref) {k : M (Unit {0})} {Q : List Resource}
      → Moves P k (λ _. Q)
      → Moves
          (local_ref s ∷ P)
          ((when b && false then release_string_utf_chars (some s) none else pure tt)
            >> ((when true then delete_local_ref (some s) else pure tt) >> k))
          (λ _. Q)
  unfolding when◌then◌else◌
  release_last-Moves true s h =
      Moves->> (Moves-pure tt refl) (Moves->> (delete_local_ref-Moves s P (λ r. refl)) h)
  release_last-Moves false s h =
      Moves->> (Moves-pure tt refl) (Moves->> (delete_local_ref-Moves s P (λ r. refl)) h)

-- A slot whose string was found and whose characters were not.
abbrev pub half : Ref → Slot
half s = record { string = some s; chars = none }

module _ {P : List Resource} where
  pub release_before-Moves :
      (ss : List Slot) → Full ss → Moves (slots ss P) (release_before ss) (λ _. P)
  unfolding release_before release_if_set
  release_before-Moves [] f = Moves-pure tt refl
  release_before-Moves (s ∷ ss) f =
      release_if_set-Moves s.string s.chars f.0 f.1 (release_before-Moves ss f.2)

  -- The slots below `i` are full, and slot `i` has its string alone.
  pub release_through-Moves :
      (i j : ℕ) (ss : List Slot) (s : Ref)
      → i ≡ j + length ss
      → Full ss
      → Moves (slots (ss ++ half s ∷ []) P) (release_through i j (ss ++ half s ∷ [])) (λ _. P)
  unfolding release_through
  release_through-Moves i j [] s e f = release_last-Moves (ltb j i) s (Moves-pure tt refl)
  release_through-Moves i j (x ∷ ss) s e f =
      release_full-Moves (ltb j i) x.string x.chars (ground arith) f.0 f.1
        (release_through-Moves i (suc j) ss s (omega arith) f.2)
