-- ===== src/Logic/Story.antt =====
-- What a function reads from Java, asks of rtc and throws, in order, without what it obtains and
-- gives back besides.
use libdatachannel_java.Prelude.{
  ℕ, String, ◌≡◌, refl, ap, ◌∙◌, Option, none, some, Option-cases, inl, inr, [], ◌∷◌,
}
use libdatachannel_java.Prelude.Int.{ℤ}
use libdatachannel_java.Native.Event.{Ptr, Ref, Event, Trace, Exception}
use libdatachannel_java.Native.World.{World, Env, M, pure, ◌>>=◌, ◌>>◌, look, emit, ask}
use libdatachannel_java.Native.Calls
use libdatachannel_java.Logic.Keeps.{Keeps}
use libdatachannel_java.Util.{throw_native_exception}
use libdatachannel_java.Strings.{with_chars, release_if_string}

abbrev pub told : Trace → Trace
told [] = []
told (Event.get_array_length a n ∷ t) = Event.get_array_length a n ∷ told t
told (Event.get_object_array_element a i s ∷ t) = Event.get_object_array_element a i s ∷ told t
told (Event.get_string_utf_chars s p ∷ t) = Event.get_string_utf_chars s p ∷ told t
told (Event.rtc c n ∷ t) = Event.rtc c n ∷ told t
told (Event.throw e ∷ t) = Event.throw e ∷ told t
told (e ∷ t) = told t

abbrev pub story : World → Trace
story w = told w.trace

-- Reading from Java alone.
pub data Reading (t : Trace) : Trace → Type 0 where
  unread : Reading t t
  length :
      {t' : Trace} (a : Ref) (n : ℤ) → Reading t t' → Reading t (Event.get_array_length a n ∷ t')
  element :
      {t' : Trace} (a : Ref) (i : ℕ) (s : Option Ref)
      → Reading t t'
      → Reading t (Event.get_object_array_element a i s ∷ t')
  chars :
      {t' : Trace} (s : Ref) (p : Option Ptr)
      → Reading t t'
      → Reading t (Event.get_string_utf_chars s p ∷ t')

-- The characters of a Java string that may be NULL.
pub data Lends : Option Ref → Option Ptr → Trace → Trace → Type 0 where
  no_string : {t : Trace} → Lends none none t t
  lent :
      {t : Trace} (s : Ref) (p : Ptr)
      → Lends (some s) (some p) t (Event.get_string_utf_chars s (some p) ∷ t)

pub Reading-Lends :
    {s : Option Ref} {p : Option Ptr} {t t' t'' : Trace}
    → Reading t t'
    → Lends s p t' t''
    → Reading t t''
Reading-Lends r no_string = r
Reading-Lends r (lent s p) = chars s (some p) r

-- Exactly one exception, and a fixed result.
pub record Throws {A : Type 0} (m : M A) (a : A) : Type 0 where
  pub thrown :
      (env : Env) (w : World)
      → (e : Exception) × ((m env w).0 ≡ a) × (story (m env w).1 ≡ Event.throw e ∷ story w)

module _ {A : Type 0} {a : A} where
  pub Throws-native : (msg : String) → Throws (throw_native_exception msg >> pure a) a
  unfolding throw_native_exception ◌>>◌ ◌>>=◌ look pure emit Calls.throw
  Throws-native msg = record { thrown = λ env w. (_, refl, refl) }

  pub Throws->> : {B : Type 0} {m : M B} {n : M A} → Keeps story m → Throws n a → Throws (m >> n) a
  unfolding ◌>>◌ ◌>>=◌
  Throws->> {m} k h = record {
    thrown = λ env w.
        let (e, r, s) = h.thrown env (m env w).1 in
        (e, r, s ∙ ap (λ t. Event.throw e ∷ t) (k.kept env w));
  }

pub ask-story :
    {A : Type 0} (f : Env → Trace → A) (e : A → Event)
    → ((a : A) (t : Trace) → told (e a ∷ t) ≡ told t)
    → Keeps story (ask f e)
unfolding ask
ask-story f e h = record { kept = λ env w. h _ w.trace }

pub emit-story : (e : Event) → ((t : Trace) → told (e ∷ t) ≡ told t) → Keeps story (emit e)
unfolding emit
emit-story e h = record { kept = λ env w. h w.trace }

pub free-story : (p : Option Ptr) → Keeps story (Calls.free p)
unfolding Calls.free
free-story p = emit-story _ (λ t. refl)

pub release_string_utf_chars-story :
    (s : Option Ref) (p : Option Ptr) → Keeps story (Calls.release_string_utf_chars s p)
unfolding Calls.release_string_utf_chars
release_string_utf_chars-story s p = emit-story _ (λ t. refl)

pub delete_local_ref-story : (s : Option Ref) → Keeps story (Calls.delete_local_ref s)
unfolding Calls.delete_local_ref
delete_local_ref-story s = emit-story _ (λ t. refl)

pub release_if_string-story :
    (s : Option Ref) (p : Option Ptr) → Keeps story (release_if_string s p)
unfolding release_if_string pure
release_if_string-story none p = record { kept = λ env w. refl }
release_if_string-story (some s) p = release_string_utf_chars-story _ _

-- Both ways that `with_chars` goes on.
pub with_chars-run :
    {A : Type 0} (P : A × World → Type 0) (s : Option Ref) (fail : M A) (next : Option Ptr → M A)
    (env : Env) (w : World)
    → ((r : Ref) (w' : World)
        → story w' ≡ Event.get_string_utf_chars r none ∷ story w
        → P (fail env w'))
    → ((p : Option Ptr) (w' : World) → Lends s p (story w) (story w') → P (next p env w'))
    → P (with_chars s fail next env w)
unfolding with_chars ◌>>=◌ ask Calls.get_string_utf_chars
with_chars-run P none fail next env w f n = n none w no_string
with_chars-run P (some s) fail next env w f n =
    elim (Option-cases (env.get_string_utf_chars w.trace s)) [
      | inl e ↦ rw e (f s _ refl)
      | inr (p, e) ↦ rw e (n (some p) _ (lent s p))
    ]
