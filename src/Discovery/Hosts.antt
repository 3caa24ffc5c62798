-- ===== src/Discovery/Hosts.antt =====
-- internal/discovery/route53.go: the host names that are worth a check.
pub mod Zones
use auto_cert.Base.{
  Bool, false, List, [], ◌∷◌, ◌||◌, not, list_eq, nat_eq, if◌then◌else◌, ◌==◌, any,
}
use auto_cert.Base.Text.{
  Text, codes, trim_space, trim_suffix, to_lower, has_suffix, has_prefix, contains, split,
}

-- `normalizeHost`
unfoldable pub normalize_host : Text → Text
unfolding trim_space trim_suffix to_lower
normalize_host s =
    let t = trim_suffix (trim_space s) (codes ".") in if t == [] then [] else to_lower t

-- One round of the loop of `isExcluded`, over the zone as normalized.
abbrev pub matches_zone : Text → Text → Bool
matches_zone h e = if e == [] then false else h == e || has_suffix h (b'.' ∷ e)

-- `Route53.isExcluded`, for the zones to exclude
unfoldable pub is_excluded : List Text → Text → Bool
unfolding normalize_host has_suffix
is_excluded [] host = false
is_excluded (z ∷ zones) host =
    any (λ ex. matches_zone (normalize_host host) (normalize_host ex)) (z ∷ zones)

-- `isMonitorableHost`
unfoldable pub is_monitorable_host : Text → Bool
unfolding has_prefix trim_suffix split
is_monitorable_host name =
    if name == []
    then false
    else if has_prefix name (codes "*.") || has_prefix name (92 ∷ codes "052.")
    then false
    else if contains name 92
    then false
    else not
        (any (λ label. has_prefix label (codes "_")) (split (trim_suffix name (codes ".")) b'.'))
