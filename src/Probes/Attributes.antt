-- ===== src/Probes/Attributes.antt =====
-- `attribute.split(".")` of zentral/core/probes/base.py: the first name and the others.
use Prim.Native.String.{String, [], ◌∷◌}
use mathlib.Core.List.{List, [] as nil, ◌∷◌ as cons}
use zentral.Base.{if◌then◌else◌, ◌==◌, nat_eq, string_eq, option_eq}

unfoldable pub split_attribute : String → String × List String
split_attribute [] = ("", nil)
split_attribute (c ∷ s) =
    let rest = split_attribute s in
    if (c ∷ "") == "." then ("", cons rest.0 rest.1) else (c ∷ rest.0, rest.1)
