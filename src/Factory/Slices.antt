-- ===== src/Factory/Slices.antt =====
-- A list in a configuration is never empty.
use kubemonitor.Common.{◌≡◌, refl, List, ◌∷◌, Text, split, split_byte}
use kubemonitor.Factory.{ConfigMap, get, parse_slice}

-- `strings.Split` of the empty string, too, has one part.
pub parse_slice_some :
    (config : ConfigMap) (key : Text)
    → (first : Text) × (rest : List Text) × (parse_slice config key ≡ first ∷ rest)
unfolding parse_slice split
parse_slice_some config key =
    let (first, rest) = split_byte b',' (get config key) in (first, rest, refl)
