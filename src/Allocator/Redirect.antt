-- ===== src/Allocator/Redirect.antt =====
-- jni/src/mimalloc_redirect.h, which is forced in front of every file of the native build.
use libdatachannel_java.Prelude.{Bool, List, [], ◌∷◌, ◌++◌, not, ◌&&◌, if◌then◌else◌}

-- What the header puts in front of a file.
pub data Directive : Type 0 where
  define_crt_rand_s include_stdlib include_string include_wchar : Directive
  include_malloc include_mimalloc_override : Directive

-- The macros that the header tests.
pub record Macros : Type 0 where
  pub redirect_included : Bool
  pub private_allocator : Bool
  pub allocator_implementation : Bool
  pub windows : Bool
  pub crt_rand_s : Bool

abbrev only_if : Bool → Directive → List Directive
only_if b d = if b then d ∷ [] else []

unfoldable pub redirect : Macros → List Directive
redirect m =
    if not m.redirect_included && (m.private_allocator && not m.allocator_implementation)
    then only_if (m.windows && not m.crt_rand_s) define_crt_rand_s
      ++ (include_stdlib ∷ include_string ∷ include_wchar ∷ [])
      ++ only_if m.windows include_malloc
      ++ (include_mimalloc_override ∷ [])
    else []
