-- ===== src/Discovery/NameCom.antt =====
-- internal/discovery/namecom.go: the domains of a name.com account and their records.
pub mod Paging
pub mod Results
use auto_cert.Base.{
  take, ℕ, zero, suc, ◌+◌, ◌/◌, ◌%◌, Bool, true, false, Option, none, some, List, [], ◌∷◌, ◌++◌,
  ◌&&◌, ◌||◌, not, list_eq, nat_eq, if◌then◌else◌, ◌==◌, leb, ltb, keep,
}
use mathlib.Core.List.{map}
use auto_cert.Base.Int.{ℤ, pos, negsuc}
use auto_cert.Base.Text.{Text, codes, to_upper, format_nat, trim_space, contains}
use auto_cert.Base.Members.{collect}
use auto_cert.Base.Result.{Result, ok, err, ◌>>=◌, wrap}
use auto_cert.Http.{Response}
use auto_cert.Model.{Domain}
use auto_cert.Discovery.Hosts.{is_monitorable_host}
use auto_cert.Discovery.Collector.{Found, start, add_host}

pub record DomainsResponse : Type 0 where
  pub domains : List Text
  pub next_page : ℤ

pub record NamecomRecord : Type 0 where
  pub kind : Text
  pub host : Text
  pub fqdn : Text

pub record RecordsResponse : Type 0 where
  pub records : List NamecomRecord
  pub next_page : ℤ

-- `namecomMaxBodyBytes`
abbrev pub max_body_bytes : ℕ
max_body_bytes = 5242880

-- `getJSONWithSize`, over `http.Client.Do` with the authorised request and `json.Unmarshal`
unfoldable pub get_json :
    {A : Type 0} → (Text → Result Response) → (Text → Result A) → Text → Result A
unfolding format_nat trim_space
get_json http unmarshal endpoint = http endpoint >>= λ resp.
    wrap (λ e. codes "read " ++ endpoint ++ codes ": " ++ e) resp.body >>= λ whole.
    let body = take max_body_bytes whole in
    if resp.status == 200
    then wrap (λ e. codes "parse " ++ endpoint ++ codes ": " ++ e) (unmarshal body)
    else err (
        codes "status "
        ++ format_nat resp.status
        ++ codes " on "
        ++ endpoint
        ++ codes ": "
        ++ trim_space body)

-- `page = resp.NextPage`, or none: `if resp.NextPage == 0 || resp.NextPage <= page { break }`
abbrev pub next_of : ℕ → ℤ → Option ℕ
next_of current (negsuc n) = none
next_of current (pos n) = if n == 0 || leb n current then none else some n

-- The loop over the pages, by rounds of which the fuel bounds the number; none if it runs out.
-- `fetch` answers the names on a page and the page's `NextPage`.
abbrev pub pages_from :
    (ℕ → Result (List Text × ℤ)) → ℕ → List Text → ℕ → Option (Result (List Text))
pages_from fetch zero all current = none
pages_from fetch (suc fuel) all current = elim (fetch current) [
  | err e ↦ some (err e)
  | ok (here, next) ↦ elim (next_of current next) [
    | none ↦ some (ok (all ++ here))
    | some n ↦ pages_from fetch fuel (all ++ here) n
  ]
]

-- What the client is made of: the transport, the two decoders, and `url.PathEscape`.
pub record Client : Type 0 where
  pub base_url : Text
  pub http : Text → Result Response
  pub unmarshal_domains : Text → Result DomainsResponse
  pub unmarshal_records : Text → Result RecordsResponse
  pub path_escape : Text → Text

abbrev not_empty : Text → Bool
not_empty s = not (s == [])

-- One round of `listDomains`.
unfoldable pub fetch_domains : Client → ℕ → Result (List Text × ℤ)
unfolding get_json format_nat
fetch_domains c current =
    get_json c.http c.unmarshal_domains
      (c.base_url ++ codes "/core/v1/domains?page=" ++ format_nat current)
    >>= λ resp. ok (keep not_empty resp.domains, resp.next_page)

-- `listDomains`
abbrev pub list_domains : Client → ℕ → Option (Result (List Text))
list_domains c fuel = pages_from (fetch_domains c) fuel [] 1

abbrev has_host : NamecomRecord → Bool
has_host r =
    let kind = to_upper r.kind in kind == codes "A" || kind == codes "AAAA" || kind == codes "CNAME"

-- The name of a record of a domain.
abbrev pub record_name : Text → NamecomRecord → Text
record_name domain r =
    if r.fqdn == []
    then (if r.host == [] || r.host == codes "@" then domain else r.host ++ b'.' ∷ domain)
    else r.fqdn

-- One round of `listRecords`.
unfoldable pub fetch_records : Client → Text → ℕ → Result (List Text × ℤ)
unfolding get_json format_nat to_upper
fetch_records c domain current =
    get_json c.http c.unmarshal_records (
      c.base_url
      ++ codes "/core/v1/domains/"
      ++ c.path_escape domain
      ++ codes "/records?page="
      ++ format_nat current)
    >>= λ resp. ok (map (record_name domain) (keep has_host resp.records), resp.next_page)

-- `listRecords`
abbrev pub list_records : Client → ℕ → Text → Option (Result (List Text))
list_records c fuel domain = pages_from (fetch_records c domain) fuel [] 1

-- `add` in `NameCom.Discover`
abbrev pub add : Text → Found → Found
add = add_host is_monitorable_host (codes "namecom")

abbrev pub add_each : List Text → Found → Found
add_each [] f = f
add_each (r ∷ rs) f = add_each rs (add r f)

-- What a listing of records adds: nothing if it fails.
abbrev pub add_listed : Result (List Text) → Found → Found
add_listed (err e) f = f
add_listed (ok rs) f = add_each rs f

-- The loop of `Discover`.
abbrev pub add_domains : Client → ℕ → List Text → Found → Option Found
add_domains c fuel [] f = some f
add_domains c fuel (d ∷ ds) f = elim (list_records c fuel d) [
  | none ↦ none
  | some listed ↦ add_domains c fuel ds (add_listed listed (add d f))
]

-- What `NameCom.Discover` makes of the listed domains.
abbrev pub discover_listed : Client → ℕ → Result (List Text) → Option (Result (List Domain))
discover_listed c fuel (err e) = some (err (codes "namecom list domains: " ++ e))
discover_listed c fuel (ok ds) = elim (add_domains c fuel ds start) [
  | none ↦ none
  | some f ↦ some (ok f.out)
]

-- `NameCom.Discover`; none if the fuel runs out.
unfoldable pub discover : Text → Text → Client → ℕ → Option (Result (List Domain))
unfolding fetch_domains fetch_records add_host is_monitorable_host
discover username token c fuel =
    if username == [] || token == []
    then some (err (codes "namecom: missing username or token"))
    else elim (list_domains c fuel) [ none ↦ none | some listed ↦ discover_listed c fuel listed ]
