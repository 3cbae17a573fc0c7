-- ===== src/Strings/Ownership.antt =====
-- What the string helpers obtain and give back.
use libdatachannel_java.Prelude.{◌+◌, ◌≡◌, ◌≤◌, Option, none, some, List, [], ◌∷◌, arith}
use libdatachannel_java.Native.Event.{Ptr, Ref, Trace}
use libdatachannel_java.Native.World.{M}
use libdatachannel_java.Logic.Ledger.{Resource, chars, count, one_self, Lent, held}
use libdatachannel_java.Logic.Moves.{Moves, Moves->>=, Moves-skip}
use libdatachannel_java.Logic.Rules.{get_string_utf_chars-Moves, release_string_utf_chars-Moves}
use libdatachannel_java.Strings.{with_chars, release_if_chars, release_if_string}

-- The characters go with their string: `NULL` if and only if it is.
abbrev pub Pairs : Option Ref → Option Ptr → Type 0
Pairs none none = Unit {0}
Pairs (some s) (some p) = Unit {0}
Pairs _ _ = ⊥

abbrev pub lent : Option Ref → Option Ptr → List Resource
lent (some s) (some p) = chars s p ∷ []
lent _ _ = []

abbrev pub lend : Option Ref → Option Ptr → List Resource → List Resource
lend (some s) (some p) P = chars s p ∷ P
lend none c P = P
lend s none P = P

pub count-lend :
    (s : Option Ref) (c : Option Ptr) (P : List Resource) (r : Resource)
    → count (lend s c P) r ≡ count (lent s c) r + count P r
count-lend none none P r = omega arith
count-lend none (some p) P r = omega arith
count-lend (some s) none P r = omega arith
count-lend (some s) (some p) P r = omega arith

pub count-lend_twice :
    (s : Option Ref) (c : Option Ptr) (s' : Option Ref) (c' : Option Ptr) (P : List Resource)
    (r : Resource)
    → count (lend s c (lend s' c' P)) r ≡ count (lent s c) r + (count (lent s' c') r + count P r)
count-lend_twice s c s' c' P r =
    omega (arith, count-lend s c (lend s' c' P) r, count-lend s' c' P r)

-- Borrowed characters may be handed to a call.
pub Lent-lent :
    (s : Option Ref) (c : Option Ptr) (t : Trace)
    → Pairs s c
    → ((r : Resource) → count (lent s c) r ≤ held t r)
    → Lent t c
Lent-lent none none t e h = tt
Lent-lent none (some p) t e h = absurd e
Lent-lent (some s) none t e h = absurd e
Lent-lent (some s) (some p) t e h = (s, omega (arith, h (chars s p), one_self (chars s p)))

module _ {P : List Resource} where
  pub with_chars-Moves :
      {A : Type 0} (s : Option Ref) {fail : M A} {next : Option Ptr → M A} {Q : A → List Resource}
      → Moves P fail Q
      → ((c : Option Ptr) → Pairs s c → Moves (lend s c P) (next c) Q)
      → Moves P (with_chars s fail next) Q
  unfolding with_chars
  with_chars-Moves none f n = n none tt
  with_chars-Moves (some s) f n =
      Moves->>= (get_string_utf_chars-Moves s) (elim [ none ↦ f | some p ↦ n (some p) tt ])

  pub release_if_chars-Moves :
      (s : Option Ref) (c : Option Ptr) (Q : List Resource)
      → Pairs s c
      → ((r : Resource) → count P r ≡ count (lent s c) r + count Q r)
      → Moves P (release_if_chars s c) (λ _. Q)
  unfolding release_if_chars
  release_if_chars-Moves none none Q e h = Moves-skip Q (λ r. omega (arith, h r))
  release_if_chars-Moves none (some p) Q e h = absurd e
  release_if_chars-Moves (some s) none Q e h = absurd e
  release_if_chars-Moves (some s) (some p) Q e h =
      release_string_utf_chars-Moves s p Q (λ r. omega (arith, h r))

  pub release_if_string-Moves :
      (s : Option Ref) (c : Option Ptr) (Q : List Resource)
      → Pairs s c
      → ((r : Resource) → count P r ≡ count (lent s c) r + count Q r)
      → Moves P (release_if_string s c) (λ _. Q)
  unfolding release_if_string
  release_if_string-Moves none none Q e h = Moves-skip Q (λ r. omega (arith, h r))
  release_if_string-Moves none (some p) Q e h = absurd e
  release_if_string-Moves (some s) none Q e h = absurd e
  release_if_string-Moves (some s) (some p) Q e h =
      release_string_utf_chars-Moves s p Q (λ r. omega (arith, h r))
