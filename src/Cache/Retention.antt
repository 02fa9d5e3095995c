-- ===== src/Cache/Retention.antt =====
-- internal/cache/retention.go: how many versions of a complypack are kept.
use complytime.Base.Integers.{ℤ, pos, negsuc}
use complytime.Base.{ℕ, String, Option, none, some, ◌≤◌, ◌==◌, ltb, if◌then◌else◌, arith}

abbrev pub default_retention_count : ℕ
default_retention_count = 1

-- The clamp of a parsed count to at least 1.
unfoldable pub clamp_retention : ℤ → ℕ
clamp_retention (pos n) = if ltb n 1 then 1 else n
clamp_retention (negsuc n) = 1

-- `raw` is the value of COMPLYTIME_CACHE_VERSIONS, "" if it is unset; `atoi` is strconv.Atoi.
unfoldable pub cache_retention_count : (String → Option ℤ) → String → ℕ
unfolding clamp_retention
cache_retention_count atoi raw =
    if raw == ""
    then default_retention_count
    else elim (atoi raw) [ none ↦ default_retention_count | some n ↦ clamp_retention n ]

clamp_retention-pos : (n : ℤ) → 1 ≤ clamp_retention n
unfolding clamp_retention
clamp_retention-pos (pos n) = ground arith
clamp_retention-pos (negsuc n) = omega arith

-- Whatever the variable holds, at least one version is kept.
cache_retention_count-pos :
    (atoi : String → Option ℤ) (raw : String) → 1 ≤ cache_retention_count atoi raw
unfolding cache_retention_count
cache_retention_count-pos atoi raw = grind (arith, clamp_retention-pos)
