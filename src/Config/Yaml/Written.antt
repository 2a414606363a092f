-- ===== src/Config/Yaml/Written.antt =====
-- Durations as documents write them, read by Duration.UnmarshalYAML of internal/config/config.go.
use mcp_resile.Base.{ℕ, ◌<◌, Bytes, Option, none, some, List, ◌∷◌, All, ◌≡◌, refl, pos}
use mcp_resile.Config.Types.{Duration}
use mcp_resile.Config.Yaml.{unmarshal_yaml}
use mcp_resile.Durations.{int64_limit}
use mcp_resile.Durations.Whole.{Part, IsPart, written, total, parse_duration-written}

-- A duration that is written as whole numbers of units, one after the other, such as 1h30m, is read
-- back as the nanoseconds that it stands for, if their number fits an int64.
pub unmarshal_yaml-written :
    (fraction : ℕ → ℕ → ℕ → ℕ) (decode_string : Bytes → Option Bytes) (node : Bytes) (d : Duration)
    (p : Part) (ps : List Part)
    → decode_string node ≡ some (written (p ∷ ps))
    → All IsPart (p ∷ ps)
    → total (p ∷ ps) < int64_limit
    → unmarshal_yaml fraction decode_string node d ≡ (pos (total (p ∷ ps)), none)
unfolding unmarshal_yaml
unmarshal_yaml-written fraction decode_string node d p ps e h small =
    rw (e, parse_duration-written fraction p ps h small) refl
