-- ===== src/Capabilities/Merging.antt =====
-- src/runtime/ProviderCapabilities.ts, `mergeIdeCapabilityRecords`: which layer decides.
use break_pilot.Common.{false, Option, List, [], ◌∷◌, ◌≡◌, string_eq, or_else, member, All}
use break_pilot.Common.Dict
use break_pilot.Common.Dict.{Dict}
use break_pilot.Capabilities.{Value, Capabilities, Group, keys_of, select}

-- No key of a group is another group's canonical key.
abbrev Apart : Group → List Group → Type 0
Apart g gs =
    All (λ h. (member g.canonical (keys_of h) ≡ false) × (member h.canonical (keys_of g) ≡ false))
      gs

abbrev Separate : List Group → Type 0
Separate [] = Unit
Separate (g ∷ gs) = Apart g gs × Separate gs

-- What a group's canonical key holds after a layer.
abbrev Settled : Capabilities → Capabilities → Capabilities → Group → Type 0
Settled layer merged after g =
    Dict.get g.canonical after ≡ or_else (select (keys_of g) layer) (Dict.get g.canonical merged)

-- The value for a group: that of the last layer which has one of its keys.
abbrev pub chosen : Group → Option Value → List Capabilities → Option Value
chosen g o [] = o
chosen g o (layer ∷ layers) = chosen g (or_else (select (keys_of g) layer) o) layers
