-- ===== src/Base/Text.antt =====
-- Texts.
use Prim.Native.String.{String}

-- One text after the other.
abbrev pub join_text : String → String → String
join_text String.[] t = t
join_text (String.◌∷◌ c s) t = String.◌∷◌ c (join_text s t)
