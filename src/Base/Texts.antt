-- ===== src/Base/Texts.antt =====
-- Texts.
use Prim.Native.String.{String}

-- `${a}${b}`
abbrev pub concat : String → String → String
concat String.[] b = b
concat (String.◌∷◌ c a) b = String.◌∷◌ c (concat a b)
