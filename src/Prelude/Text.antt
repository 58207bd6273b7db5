-- ===== src/Prelude/Text.antt =====
-- Texts: concatenation, `len` in bytes, and the joins that the code writes with fmt and strings.
use Prim.Native.String.{String, ◌++◌ as append}
use mathlib.Core.List.{List, [], ◌∷◌}

-- the texts one after the other, as `fmt.Sprintf` with `%s` puts them together
unfoldable pub concat : List String → String
concat [] = ""
concat (s ∷ ss) = append s (concat ss)

-- `strings.Join`
unfoldable pub join : String → List String → String
unfolding concat
join sep [] = ""
join sep (s ∷ []) = s
join sep (s ∷ t ∷ ss) = concat (s ∷ sep ∷ join sep (t ∷ ss) ∷ [])
