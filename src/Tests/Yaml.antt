-- ===== src/Tests/Yaml.antt =====
-- Durations of a document.
use mcp_resile.Base.{
  ℕ, ◌*◌, ◌/◌, codes, none, some, [], ◌∷◌, ◌<◌, All, refl, pos, ◌≡◌, str_eq, arith,
}
use mcp_resile.Durations.{
  leading_int, leading_fraction, number, split_unit, unit_map, scaled, one_part, parts,
  parse_duration, int64_limit,
}
use mcp_resile.Durations.Bounds.{IsInt64}
use mcp_resile.Durations.Whole.{Part, IsPart, written, total}
use mcp_resile.Config.Yaml.Written.{unmarshal_yaml-written}
use mcp_resile.Config.Yaml.{unmarshal_yaml}
use mcp_resile.Config.Yaml.Range.{Decodes, unmarshal_yaml-IsInt64}

-- Fractions without rounding.
abbrev exact_fraction : ℕ → ℕ → ℕ → ℕ
exact_fraction f unit scale = f * unit / scale

read_mixed : parse_duration exact_fraction (codes "1m1.5s") ≡ some (pos 61500000000)
unfolding parse_duration parts one_part number leading_int leading_fraction split_unit unit_map
    scaled str_eq
read_mixed = refl

unmarshal_yaml-IsInt64_test :
    IsInt64 (unmarshal_yaml exact_fraction (λ node. some node) (codes "2562048h") (pos 5)).0
    × Decodes
        (parse_duration exact_fraction)
        (some (codes "2562048h"))
        (pos 5)
        (unmarshal_yaml exact_fraction (λ node. some node) (codes "2562048h") (pos 5))
unmarshal_yaml-IsInt64_test =
    unmarshal_yaml-IsInt64 exact_fraction (λ node. some node) (codes "2562048h") (pos 5)
      (omega arith)

abbrev hours : Part
hours = record { count = 1; unit = codes "h"; size = 3600000000000 }

abbrev minutes : Part
minutes = record { count = 30; unit = codes "m"; size = 60000000000 }

written_parts : All IsPart (hours ∷ minutes ∷ [])
unfolding unit_map str_eq
written_parts = (refl, (refl, tt))

within : total (hours ∷ minutes ∷ []) < int64_limit
unfolding total
within = omega arith

unmarshal_yaml-written_example :
    unmarshal_yaml exact_fraction
      (λ node. some (written (hours ∷ minutes ∷ [])))
      (codes "1h30m")
      (pos 5)
    ≡ (pos (total (hours ∷ minutes ∷ [])), none)
unmarshal_yaml-written_example =
    unmarshal_yaml-written exact_fraction (λ node. some (written (hours ∷ minutes ∷ [])))
      (codes "1h30m") (pos 5) hours (minutes ∷ []) refl written_parts within
