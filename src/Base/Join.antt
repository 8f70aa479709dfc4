-- ===== src/Base/Join.antt =====
-- `join` of a list of texts, and an optional value in a template.
use Prim.Native.String.{String}
use mathlib.Core.Option.{Option, none, some}
use mathlib.Core.List.{List, [], ◌∷◌}
use mx_api_service.Base.Text.{◌<>◌}

unfoldable pub join : String → List String → String
join sep [] = ""
join sep (s ∷ []) = s
join sep (s ∷ t ∷ ts) = s <> sep <> join sep (t ∷ ts)

-- `${t}` where `t` can be undefined.
abbrev pub text_or_undefined : Option String → String
text_or_undefined none = "undefined"
text_or_undefined (some t) = t
