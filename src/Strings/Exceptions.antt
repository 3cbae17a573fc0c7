-- ===== src/Strings/Exceptions.antt =====
-- How many exceptions are thrown while characters are borrowed.
use libdatachannel_java.Prelude.{ℕ, Option, none, some}
use libdatachannel_java.Native.Event.{Ptr, Ref}
use libdatachannel_java.Native.World.{M, Env}
use libdatachannel_java.Logic.Costs.{Costs-pure, Costs-free->>=}
use libdatachannel_java.Logic.Costs.Raises.{
  Raises, get_string_utf_chars-Raises, release_string_utf_chars-Raises,
}
use libdatachannel_java.Strings.{with_chars, release_if_chars, release_if_string}

module _ {env : Env} where
  pub with_chars-Raises :
      {A : Type 0} {k : ℕ} (s : Option Ref) {fail : M A} {next : Option Ptr → M A}
      → Raises k env fail
      → ((c : Option Ptr) → Raises k env (next c))
      → Raises k env (with_chars s fail next)
  unfolding with_chars
  with_chars-Raises none f n = n none
  with_chars-Raises (some s) f n =
      Costs-free->>= (get_string_utf_chars-Raises s) (elim [ none ↦ f | some p ↦ n (some p) ])

  pub release_if_chars-Raises :
      (s : Option Ref) (p : Option Ptr) → Raises 0 env (release_if_chars s p)
  unfolding release_if_chars
  release_if_chars-Raises s none = Costs-pure tt
  release_if_chars-Raises s (some p) = release_string_utf_chars-Raises s (some p)

  pub release_if_string-Raises :
      (s : Option Ref) (p : Option Ptr) → Raises 0 env (release_if_string s p)
  unfolding release_if_string
  release_if_string-Raises none p = Costs-pure tt
  release_if_string-Raises (some s) p = release_string_utf_chars-Raises (some s) p
