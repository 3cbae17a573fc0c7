-- ===== src/Peer/Servers/Reading.antt =====
-- In which order the ICE servers of rtcCreatePeerConnection are read, and what a failure leaves.
use libdatachannel_java.Prelude.{
  ℕ, zero, suc, ◌≡◌, refl, sym, ap, subst, ◌∙◌, true, false, Option, none, some, Option-cases, inl,
  inr, List, [], ◌∷◌, ◌++◌, arith,
}
use libdatachannel_java.Prelude.Int.{ℤ, pos, negsuc, int_lt}
use libdatachannel_java.Native.Event
use libdatachannel_java.Native.Event.{Ptr, Ref, Trace, Exception}
use libdatachannel_java.Native.World.{World, Env, M, pure, ◌>>=◌, when-run, read, ask}
use libdatachannel_java.Native.Calls
use libdatachannel_java.Logic.Story.{story, Reading, unread, length, element, chars, Throws}
use libdatachannel_java.Peer.Servers.Silence.{no_string-Throws, no_chars-Throws, no_arrays-Throws}
use libdatachannel_java.Peer.Servers.{
  Slot, chars_of, IceServers, acquire_slots, fill_arrays, allocate_arrays, get_ice_servers,
}

-- `left` elements from index `i` on, and the characters of each, one after the other.
pub data Reads (array : Ref) : (i left : ℕ) → List (Option Ptr) → Trace → Trace → Type 0 where
  done : {i : ℕ} {t : Trace} → Reads array i 0 [] t t
  next :
      {i left : ℕ} {ps : List (Option Ptr)} {t t' : Trace} (s : Ref) (p : Ptr)
      → Reads array
          (suc i)
          left
          ps
          (Event.get_string_utf_chars s (some p)
            ∷ Event.get_object_array_element array i (some s)
            ∷ t)
          t'
      → Reads array i (suc left) (some p ∷ ps) t t'

-- The ICE servers of an array that may be NULL, with what was read for them.
pub data Served : Option Ref → IceServers → Trace → Trace → Type 0 where
  absent :
      {t : Trace}
      → Served none (record { array = none; strings = none; count = pos 0; slots = [] }) t t
  empty :
      {t : Trace} (array : Ref) (n : ℤ)
      → int_lt (pos 0) n ≡ false
      → Served
          (some array)
          (record { array = none; strings = none; count = n; slots = [] })
          t
          (Event.get_array_length array n ∷ t)
  filled :
      {t t' : Trace} (array : Ref) (s : IceServers) (n : ℕ)
      → s.count ≡ pos n
      → Reads array 0 n (chars_of s.slots) (Event.get_array_length array (pos n) ∷ t) t'
      → Served (some array) s t t'

pub Reading-Reads :
    {array : Ref} {i left : ℕ} {ps : List (Option Ptr)} {t t' t'' : Trace}
    → Reading t t'
    → Reads array i left ps t' t''
    → Reading t t''
Reading-Reads r done = r
Reading-Reads r (next s p h) = Reading-Reads (chars s (some p) (element _ _ (some s) r)) h

pub Served-Reading :
    {array : Option Ref} {s : IceServers} {t t' : Trace} → Served array s t t' → Reading t t'
Served-Reading absent = unread
Served-Reading (empty array n e) = length array n unread
Served-Reading (filled array s n e h) = Reading-Reads (length array (pos n) unread) h

-- The outcome of a part that reads: its result and what was read, or one exception after some reading.
pub data Outcome {A : Type 0} (t : Trace) (Good : A → Trace → Type 0)
    : Option A × World → Type 0 where
  good : (a : A) {w : World} → Good a (story w) → Outcome t Good (some a, w)
  bad :
      {t' : Trace} {w : World} (e : Exception)
      → Reading t t'
      → story w ≡ Event.throw e ∷ t'
      → Outcome t Good (none, w)

bad_of :
    {A : Type 0} {t t' : Trace} {Good : A → Trace → Type 0} (r : Option A × World) (e : Exception)
    → r.0 ≡ none
    → Reading t t'
    → story r.1 ≡ Event.throw e ∷ t'
    → Outcome t Good r
bad_of (none, w) e n r s = bad e r s
bad_of (some a, w) e n r s = cc

Throws-Outcome :
    {A : Type 0} {t : Trace} {Good : A → Trace → Type 0} {m : M (Option A)} (env : Env) (w : World)
    → Throws m none
    → Reading t (story w)
    → Outcome t Good (m env w)
Throws-Outcome env w h r = let (e, n, s) = h.thrown env w in bad_of _ e n r s

Outcome-map :
    {A : Type 0} {t : Trace} {G H : A → Trace → Type 0} {r : Option A × World}
    → ((a : A) (t' : Trace) → G a t' → H a t')
    → Outcome t G r
    → Outcome t H r
Outcome-map f (good a g) = good a (f _ _ g)
Outcome-map f (bad e r s) = bad e r s

chars_of-append :
    (ss : List Slot) (s : Slot) (ps : List (Option Ptr))
    → chars_of (ss ++ s ∷ []) ++ ps ≡ chars_of ss ++ s.chars ∷ ps
chars_of-append [] s ps = refl
chars_of-append (x ∷ ss) s ps = ap (λ l. x.chars ∷ l) (chars_of-append ss s ps)

append_nil : (ps : List (Option Ptr)) → ps ≡ ps ++ []
append_nil [] = refl
append_nil (p ∷ ps) = ap (λ l. p ∷ l) (append_nil ps)

-- What the loop has added to the slots that it started with.
abbrev Acquired : Ref → (i left : ℕ) → List Slot → Trace → List Slot → Trace → Type 0
Acquired array i left acquired t ss t' =
    (ps : List (Option Ptr)) × (chars_of ss ≡ chars_of acquired ++ ps) × Reads array i left ps t t'

module _ (array : Ref) (servers strings : Ptr) (env : Env) {t : Trace} where
  acquire_slots-Outcome :
      (left i : ℕ) (acquired : List Slot) (w : World)
      → Reading t (story w)
      → Outcome t
          (Acquired array i left acquired (story w))
          (acquire_slots array servers strings left i acquired env w)
  unfolding acquire_slots ◌>>=◌ pure ask Calls.get_object_array_element Calls.get_string_utf_chars
  acquire_slots-Outcome zero i acquired w r =
      good acquired ([], append_nil (chars_of acquired), done)
  acquire_slots-Outcome (suc left) i acquired w r =
      elim (Option-cases (env.get_object_array_element w.trace array i)) [
        | inl e ↦ rw e (
            Throws-Outcome env _ (no_string-Throws servers strings acquired)
              (element array i none r))
        | inr (s, e) ↦ rw e (
            let t' : Trace = Event.get_object_array_element array i (some s) ∷ w.trace in
            elim (Option-cases (env.get_string_utf_chars t' s)) [
              | inl e' ↦ rw e' (
                  Throws-Outcome env _ (no_chars-Throws servers strings i _)
                    (chars s none (element array i (some s) r)))
              | inr (p, e') ↦ rw e' (
                  Outcome-map
                    (λ ss t'' (ps, q, h).
                      (some p ∷ ps, q ∙ chars_of-append acquired _ ps, next s p h))
                    (acquire_slots-Outcome left (suc i) _ _
                      (chars s (some p) (element array i (some s) r))))
            ])
      ]

-- The slots of `n` elements that were read make the ICE servers.
filled_of :
    {array servers strings : Ref} {n : ℕ} {t t' : Trace} (ss : List Slot)
    → Acquired array 0 n [] (Event.get_array_length array (pos n) ∷ t) ss t'
    → Served
        (some array)
        (record { array = some servers; strings = some strings; count = pos n; slots = ss })
        t
        t'
filled_of {array} {n} {t} {t'} ss (ps, q, h) =
    filled array _ n refl
      (subst (λ l. Reads array 0 n l (Event.get_array_length array (pos n) ∷ t) t') (sym q) h)

module _ (array : Ref) (env : Env) {t : Trace} (n : ℕ) where
  finish :
      (servers strings : Ptr) (r : Option (List Slot) × World)
      → Outcome t (Acquired array 0 n [] (Event.get_array_length array (pos n) ∷ t)) r
      → Outcome t
          (λ s. Served (some array) s t)
          ((elim r.0 as (λ _. M (Option IceServers)) [
            | none ↦ pure none
            | some ss ↦ pure (
                some (record {
                  array = some servers;
                  strings = some strings;
                  count = pos n;
                  slots = ss;
                }))
          ])
            env r.1)
  unfolding pure
  finish servers strings r (good ss g) = good _ (filled_of ss g)
  finish servers strings r (bad e b s) = bad e b s

  fill_arrays-Outcome :
      (a b : Option Ptr) (w : World)
      → story w ≡ Event.get_array_length array (pos n) ∷ t
      → Outcome t (λ s. Served (some array) s t) (fill_arrays array (pos n) a b env w)
  unfolding fill_arrays ◌>>=◌
  fill_arrays-Outcome (some a) (some b) w e = finish a b _ (
      subst (λ x. Outcome t (Acquired array 0 n [] x) (acquire_slots array a b n 0 [] env w)) e
        (acquire_slots-Outcome array a b env n 0 [] w
          (subst (Reading t) (sym e) (length array (pos n) unread))))
  fill_arrays-Outcome none b w e =
      Throws-Outcome env w (no_arrays-Throws none b)
        (subst (Reading t) (sym e) (length array (pos n) unread))
  fill_arrays-Outcome (some a) none w e =
      Throws-Outcome env w (no_arrays-Throws (some a) none)
        (subst (Reading t) (sym e) (length array (pos n) unread))

allocate_arrays-Outcome :
    (array : Ref) (env : Env) {t : Trace} (c : ℤ) (w : World)
    → int_lt (pos 0) c ≡ true
    → story w ≡ Event.get_array_length array c ∷ t
    → Outcome t (λ s. Served (some array) s t) (allocate_arrays array c env w)
unfolding allocate_arrays ◌>>=◌ read ask Calls.malloc
allocate_arrays-Outcome array env (pos n) w h e = fill_arrays-Outcome array env n _ _ _ e
allocate_arrays-Outcome array env (negsuc n) w h e = absurd (ground arith)

pub get_ice_servers-Outcome :
    (array : Option Ref) (env : Env) (w : World)
    → Outcome (story w) (λ s. Served array s (story w)) (get_ice_servers array env w)
unfolding get_ice_servers ◌>>=◌ pure ask Calls.get_array_length
get_ice_servers-Outcome none env w = good _ absent
get_ice_servers-Outcome (some array) env w =
    when-run (Outcome (story w) (λ s. Served (some array) s (story w)))
      (int_lt (pos 0) (env.get_array_length w.trace array)) _ _ env _
      (λ h. allocate_arrays-Outcome array env _ _ h refl) (λ h. good _ (empty array _ h))
