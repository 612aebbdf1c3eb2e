-- ===== src/Prelude/Text.antt =====
-- The bytes of an ASCII string literal.
use Prim.Native.Char.{code}
use Prim.Native.String.{String}
use mathlib.Core.List.{[], ◌∷◌}
use dvpnd.Prelude.Strings.{Bytes}

unfoldable pub ascii : String → Bytes
ascii String.[] = []
ascii (String.◌∷◌ c s) = code c ∷ ascii s
