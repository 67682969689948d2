-- ===== src/Base/Texts.antt =====
-- Texts put together.
use Prim.Native.String.{String, ◌++◌}

-- `a + b` on texts
abbrev pub append : String → String → String
append a b = a ++ b
