-- ===== src/Strings/Quiet.antt =====
-- The listeners and user pointers while characters are borrowed.
use libdatachannel_java.Logic.Stays.{
  Stays, Stays-pure, Stays->>=, get_string_utf_chars-Stays, release_string_utf_chars-Stays,
}
use libdatachannel_java.Prelude.{Option, none, some}
use libdatachannel_java.Prelude.Int.{ℤ}
use libdatachannel_java.Native.Event.{Ptr, Ref}
use libdatachannel_java.Native.World.{M, Env}
use libdatachannel_java.Strings.{with_chars, release_if_chars, release_if_string}

module _ {env : Env} {peer : ℤ} where
  pub with_chars-Stays :
      {A : Type 0} (s : Option Ref) {fail : M A} {next : Option Ptr → M A}
      → Stays env peer fail
      → ((c : Option Ptr) → Stays env peer (next c))
      → Stays env peer (with_chars s fail next)
  unfolding with_chars
  with_chars-Stays none f n = n none
  with_chars-Stays (some s) f n =
      Stays->>= (get_string_utf_chars-Stays s) (elim [ none ↦ f | some p ↦ n (some p) ])

  pub release_if_chars-Stays :
      (s : Option Ref) (p : Option Ptr) → Stays env peer (release_if_chars s p)
  unfolding release_if_chars
  release_if_chars-Stays s none = Stays-pure tt
  release_if_chars-Stays s (some p) = release_string_utf_chars-Stays s (some p)

  pub release_if_string-Stays :
      (s : Option Ref) (p : Option Ptr) → Stays env peer (release_if_string s p)
  unfolding release_if_string
  release_if_string-Stays none p = Stays-pure tt
  release_if_string-Stays (some s) p = release_string_utf_chars-Stays (some s) p
