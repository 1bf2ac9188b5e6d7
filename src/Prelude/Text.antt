-- ===== src/Prelude/Text.antt =====
-- Concatenation of texts, under a name that does not clash with that of lists.
use Prim.Native.String.{String}
use Prim.Native.String

infixr 66 ◌+++◌
abbrev pub ◌+++◌ : String → String → String
s +++ t = String.◌++◌ s t
