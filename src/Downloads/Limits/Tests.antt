-- ===== src/Downloads/Limits/Tests.antt =====
-- Limits from an environment that sets one of them.
use sme_data_center.Common.{
  ◌-◌, Option, none, some, [], ◌∷◌, ◌≡◌, refl, Text, trim, trim_start, is_space,
}
use sme_data_center.Downloads.Schema.{ℤ, pos}
use sme_data_center.Downloads.Limits.{
  Key, max_active_per_org_key, loaded, AllLimits, positive_safe, raw_value,
  parse_positive_safe_integer, bounded, load_limits,
}
use sme_data_center.Downloads.Limits.Bounds.{AreBounded, load_limits-AreBounded}

-- One digit as a number.
abbrev digit : Text → Option ℤ
digit (c ∷ []) = some (pos (c - 48))
digit _ = none

abbrev one_set : Key → Option Text
one_set max_active_per_org_key = some (32 ∷ 56 ∷ [])
one_set _ = none

abbrev eight_per_org : AllLimits
eight_per_org = record {
  limits = record {
    max_partitions = 500;
    max_bytes = 268435456;
    max_active_per_org = 8;
    max_active_per_requester = 4;
    retention_seconds = 86400;
  };
  url_ttl_seconds = 900;
}

loads_eight : load_limits digit one_set ≡ loaded eight_per_org
unfolding load_limits bounded parse_positive_safe_integer positive_safe raw_value trim trim_start
    is_space
loads_eight = refl

load_limits-AreBounded_example : AreBounded eight_per_org
load_limits-AreBounded_example = load_limits-AreBounded digit one_set eight_per_org loads_eight
