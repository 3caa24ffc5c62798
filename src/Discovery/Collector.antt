-- ===== src/Discovery/Collector.antt =====
-- internal/discovery/route53.go, internal/discovery/namecom.go: the closures `add`, which collect
-- the host names that a provider names, each once.
pub mod Laws
use mathlib.Core.List.{map}
use auto_cert.Base.{
  Bool, true, false, none, List, [], ◌∷◌, ◌++◌, ◌||◌, list_eq, nat_eq, if◌then◌else◌, ◌==◌,
}
use auto_cert.Base.Int.{pos}
use auto_cert.Base.Text.{Text}
use auto_cert.Model.{Domain}
use auto_cert.Discovery.Hosts.{normalize_host}

-- The variables `seen` and `out` of `Discover`.
pub record Found : Type 0 where
  pub seen : List Text
  pub out : List Domain

abbrev pub start : Found
start = record { seen = []; out = [] }

abbrev pub mentions : List Text → Text → Bool
mentions [] n = false
mentions (m ∷ ms) n = m == n || mentions ms n

-- `model.Domain{Name: n, Source: …}`
abbrev pub host_domain : Text → Text → Domain
host_domain source n = record { name = n; port = pos 0; source = source; expiry_fallback = none }

abbrev pub append_host : Text → Text → Found → Found
append_host source n f = record { seen = n ∷ f.seen; out = f.out ++ host_domain source n ∷ [] }

-- `add` behind `normalizeHost`, with the provider's name and its test of a normalized name
unfoldable pub add_name : (Text → Bool) → Text → Text → Found → Found
add_name accept source n f =
    if n == []
    then f
    else if accept n
    then (if mentions f.seen n then f else append_host source n f)
    else f

-- `add`
unfoldable pub add_host : (Text → Bool) → Text → Text → Found → Found
unfolding add_name
add_host accept source raw f = add_name accept source (normalize_host raw) f

abbrev pub names : Found → List Text
names f = map (λ d. d.name) f.out
