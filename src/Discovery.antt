-- ===== src/Discovery.antt =====
-- internal/discovery/discovery.go: the discoverers' lists become one list of domains.
pub mod Select
pub mod Kept
pub mod Priority
pub mod Order
pub mod Hosts
pub mod Collector
pub mod Static
pub mod Route53
pub mod NameCom
use mathlib.Core.List.{map, filter_map}
use auto_cert.Base.{
  Option, ℕ, Bool, none, some, List, [], ◌∷◌, ◌&&◌, ◌||◌, list_eq, nat_eq, pair_eq, if◌then◌else◌,
  ◌==◌, ltb, is_none, is_some,
}
use auto_cert.Base.Int.{ℤ, pos, lt_ℤ, int_eq}
use auto_cert.Base.Text.{Text, codes, to_lower}
use auto_cert.Base.Dict.{Dict, lookup, insert, keys, values}
use auto_cert.Base.Dict.Fill.{fill}
use auto_cert.Base.Members.{collect}
use auto_cert.Base.Sort.{sort_slice}
use auto_cert.Base.Sort.Order.{lt_text, lex}
use auto_cert.Base.Result as Outcome
use auto_cert.Base.Result.{ok, err}
use auto_cert.Model.{Domain}

-- `discovererPriority`
unfoldable pub discoverer_priority : Text → ℕ
discoverer_priority name =
    if name == codes "static"
    then 0
    else if name == codes "namecom"
    then 1
    else if name == codes "route53" || name == codes "cloudflare"
    then 2
    else 99

abbrev pub Key : Type 0
Key = Text × ℤ

-- `key{strings.ToLower(d.Name), d.Port}`
abbrev pub dedup_key : Domain → Key
dedup_key d = (to_lower d.name, d.port)

-- `if d.Port == 0 { d.Port = defaultPort }`
abbrev pub with_port : ℤ → Domain → Domain
with_port default_port d = if d.port == pos 0 then record d { port = default_port } else d

abbrev pub Seen : Type 0
Seen = Dict Key Domain

-- One round of the inner loop of `dedup`.
unfoldable pub add : Seen → Domain → Seen
unfolding lookup insert to_lower
add seen d = elim (lookup (dedup_key d) seen) [
  | none ↦ insert (dedup_key d) d seen
  | some existing ↦
      if is_none existing.expiry_fallback && is_some d.expiry_fallback
      then insert (dedup_key d) (record existing { expiry_fallback = d.expiry_fallback }) seen
      else seen
]

abbrev pub add_all : Seen → List Domain → Seen
add_all seen [] = seen
add_all seen (d ∷ ds) = add_all (add seen d) ds

abbrev pub rank : Text → ℕ × Text
rank name = (discoverer_priority name, name)

-- The comparison of the names: priority, then the alphabet.
abbrev pub less_name : Text → Text → Bool
less_name a b = lex ltb lt_text (rank a) (rank b)

-- `perDiscoverer[n]`
abbrev pub found_by : Dict Text (List Domain) → Text → List Domain
found_by per n = elim (lookup n per) [ none ↦ [] | some ds ↦ ds ]

-- The entries in the order in which `dedup` comes to them.
unfoldable pub candidates : ℤ → Dict Text (List Domain) → List Domain
unfolding lookup sort_slice discoverer_priority
candidates default_port per =
    map (with_port default_port) (collect (found_by per) (sort_slice less_name (keys per)))

abbrev pub place : Domain → Text × ℤ
place d = (d.name, d.port)

-- The comparison of the result: name, then port.
abbrev pub less_domain : Domain → Domain → Bool
less_domain a b = lex lt_text lt_ℤ (place a) (place b)

-- `dedup`
unfoldable pub dedup : Dict Text (List Domain) → ℤ → List Domain
unfolding candidates add sort_slice
dedup per default_port = sort_slice less_domain (values (add_all [] (candidates default_port per)))

-- `Result`
pub record Result : Type 0 where
  pub domains : List Domain
  pub errors : Dict Text Text

-- What a discoverer answers.
pub record Finished : Type 0 where
  pub name : Text
  pub answer : Outcome.Result (List Domain)

abbrev pub success : Finished → Option (Text × List Domain)
success f = elim f.answer [ ok ds ↦ some (f.name, ds) | err e ↦ none ]

abbrev pub failure : Finished → Option (Text × Text)
failure f = elim f.answer [ ok ds ↦ none | err e ↦ some (f.name, e) ]

-- `Aggregate`, by the discoverers' answers in the order in which they take the lock.
unfoldable pub aggregate : ℤ → List Finished → Result
unfolding dedup fill filter_map
aggregate default_port finished = record {
  domains = dedup (fill (λ p. p.0) (λ p. p.1) [] (filter_map success finished)) default_port;
  errors = fill (λ p. p.0) (λ p. p.1) [] (filter_map failure finished);
}
