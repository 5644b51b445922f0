-- ===== src/Prelude/Text.antt =====
-- Prefixes of names, and the code points of a text.
use Prim.Native.Char.{code}
use Prim.Native.String.{String, [], ◌∷◌}
use Prim.Native.String
use mathlib.Core.Path.{◌≡◌}
use mathlib.Core.Option.{Option, none, some}
use native.Mathlib.Omega.{arith}
use text.Mathlib.TextLemmas.{nil-append, cons-append}
use text.Mathlib.TextEquality.{Char-path}
use warehousd.Prelude.Tests.{nat_eq, if◌then◌else◌}

-- What follows a prefix, if the text begins with it.
abbrev pub strip_prefix : String → String → Option String
strip_prefix [] s = some s
strip_prefix (c ∷ p) [] = none
strip_prefix (c ∷ p) (d ∷ s) = if nat_eq (code c) (code d) then strip_prefix p s else none

abbrev pub join : String → String → String
join a b = String.◌++◌ a b

pub strip_prefix-join : (p s : String) → strip_prefix p (join p s) ≡ some s
strip_prefix-join [] s = rw nil-append
strip_prefix-join (c ∷ p) s = rw cons-append (ground (arith, strip_prefix-join p s))

pub join-strip_prefix : (p s r : String) → strip_prefix p s ≡ some r → s ≡ join p r
join-strip_prefix [] s r h = rw nil-append (ground arith)
join-strip_prefix (c ∷ p) [] r h = cc
join-strip_prefix (c ∷ p) (d ∷ s) r h =
    rw cons-append (ground (arith, join-strip_prefix p s r, Char-path c d))
