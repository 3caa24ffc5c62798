-- ===== src/Rdap/Client.antt =====
-- internal/rdap/client.go: the registry's answer for a domain, by the endpoint of its TLD.
pub mod Endpoint
pub mod Bootstrap
pub mod Answers
pub mod Steady
use auto_cert.Base.{
  take, ℕ, Bool, true, false, Option, none, some, List, [], ◌∷◌, ◌++◌, list_eq, nat_eq,
  if◌then◌else◌, ◌==◌, not,
}
use auto_cert.Base.Text.{
  Text, codes, trim_space, trim_suffix, has_prefix, has_suffix, to_lower, split, join, format_nat,
  format_quoted, equal_fold,
}
use auto_cert.Base.Dict.{Dict, lookup, insert}
use auto_cert.Base.Result.{Result, ok, err, ◌>>=◌, wrap}
use auto_cert.Http.{Response, Web}
use auto_cert.Model.{DomainInfo, Error}
use auto_cert.Time.{Time, zero_time, utc}

abbrev pub bootstrap_url : Text
bootstrap_url = codes "https://data.iana.org/rdap/dns.json"

-- `maxBootstrapBytes`
abbrev pub max_bootstrap_bytes : ℕ
max_bootstrap_bytes = 5242880

-- `maxRDAPBodyBytes`
abbrev pub max_rdap_body_bytes : ℕ
max_rdap_body_bytes = 1048576

-- The endpoint of each TLD.
abbrev pub Endpoints : Type 0
Endpoints = Dict Text Text

-- `Client`, but for the transport: if the bootstrap was tried (`bootstrapOnce`), its error, and the
-- endpoints of its answer.
pub record Client : Type 0 where
  pub bootstrapped : Bool
  pub bootstrap_err : Error
  pub tld_to_endpoint : Endpoints

-- `NewClient`
abbrev pub new_client : Client
new_client = record { bootstrapped = false; bootstrap_err = none; tld_to_endpoint = [] }

-- The first endpoint with `https`, or the other text.
abbrev pub prefer_https : Text → List Text → Text
prefer_https endpoint [] = endpoint
prefer_https endpoint (e ∷ es) =
    let rest = prefer_https endpoint es in if has_prefix e (codes "https://") then e else rest

abbrev pub with_slash : Text → Text
with_slash endpoint = if has_suffix endpoint (codes "/") then endpoint else endpoint ++ codes "/"

-- The loop over the TLDs of a service.
abbrev pub add_tlds : Text → List Text → Endpoints → Endpoints
add_tlds endpoint [] m = m
add_tlds endpoint (tld ∷ tlds) m =
    add_tlds endpoint tlds (insert (to_lower (trim_suffix tld (codes "."))) endpoint m)

-- The round of the loop for one service: a tuple of TLDs and endpoints.
abbrev pub add_service : List (List Text) → Endpoints → Endpoints
add_service [] m = m
add_service (tlds ∷ []) m = m
add_service (tlds ∷ [] ∷ more) m = m
add_service (tlds ∷ (e ∷ es) ∷ more) m = add_tlds (with_slash (prefer_https e (e ∷ es))) tlds m

abbrev pub add_services : List (List (List Text)) → Endpoints → Endpoints
add_services [] m = m
add_services (svc ∷ svcs) m = add_services svcs (add_service svc m)

-- `if resp.StatusCode != http.StatusOK`
abbrev pub body_of : Text → (ℕ → Text) → ℕ → Response → Result Text
body_of reading refused limit resp =
    if resp.status == 200
    then (wrap (λ e. reading ++ e) resp.body >>= λ whole. ok (take limit whole))
    else err (refused resp.status)

-- What the client decodes with.
pub record Decoders : Type 0 where
  -- The services of a `bootstrapResponse`.
  pub unmarshal_services : Text → Result (List (List (List Text)))
  -- The actions and dates of the events of an `rdapDomainResponse`.
  pub unmarshal_events : Text → Result (List (Text × Text))
  -- `time.Parse(time.RFC3339, s)`
  pub parse_time : Text → Result Time

-- The loop of `endpointFor`: the endpoint of the longest suffix that has one.
abbrev pub find_suffix : Endpoints → List Text → Option Text
find_suffix m [] = none
find_suffix m (l ∷ ls) = elim (lookup (join (l ∷ ls) (codes ".")) m) [
  | some ep ↦ some ep
  | none ↦ find_suffix m ls
]

-- `strings.ToLower(strings.TrimSuffix(strings.TrimSpace(domain), "."))`
abbrev pub bare : Text → Text
bare domain = to_lower (trim_suffix (trim_space domain) (codes "."))

abbrev pub or_no_endpoint : Text → Option Text → Result Text
or_no_endpoint domain (some ep) = ok ep
or_no_endpoint domain none = err (codes "no RDAP endpoint for " ++ format_quoted domain)

-- `endpointFor`
unfoldable pub endpoint_for : Endpoints → Text → Result Text
unfolding to_lower trim_suffix trim_space split join lookup format_quoted
endpoint_for m domain =
    let d = bare domain in
    if d == []
    then err (codes "empty domain")
    else or_no_endpoint domain (find_suffix m (split d b'.'))

abbrev pub url_for : Text → Text → Text
url_for endpoint domain = endpoint ++ codes "domain/" ++ to_lower (trim_space domain)

-- The info that `Lookup` returns.
abbrev pub info_of : Time → Text → Result Time → DomainInfo
info_of now domain (err e) = record {
  domain = domain;
  expires_at = zero_time;
  source = [];
  checked_at = utc now;
  err = some e;
  is_apex = false;
  fallback_expected = zero_time;
}
info_of now domain (ok t) = record {
  domain = domain;
  expires_at = t;
  source = codes "rdap";
  checked_at = utc now;
  err = none;
  is_apex = false;
  fallback_expected = zero_time;
}

module _ (dec : Decoders) where
  -- What the function that `bootstrapOnce` guards comes to: the endpoints, or the error.
  unfoldable pub fetch_endpoints : Web → Result Endpoints
  unfolding format_nat insert to_lower trim_suffix has_prefix has_suffix
  fetch_endpoints web =
      wrap (λ e. codes "rdap bootstrap request: " ++ e) (web.new_request bootstrap_url) >>= λ _.
      wrap (λ e. codes "rdap bootstrap fetch: " ++ e) (web.send bootstrap_url) >>= λ resp.
      body_of (codes "rdap bootstrap read: ") (λ n. codes "rdap bootstrap status " ++ format_nat n)
        max_bootstrap_bytes resp
      >>= λ body.
          wrap (λ e. codes "rdap bootstrap parse: " ++ e) (dec.unmarshal_services body)
          >>= λ services. ok (add_services services [])

  abbrev pub bootstrapped_with : Client → Result Endpoints → Client
  bootstrapped_with c (err e) = record c { bootstrapped = true; bootstrap_err = some e }
  bootstrapped_with c (ok m) = record c { bootstrapped = true; tld_to_endpoint = m }

  -- `loadBootstrap`: the client afterwards, whose error is the one returned.
  unfoldable pub load_bootstrap : Web → Client → Client
  unfolding fetch_endpoints
  load_bootstrap web c = if c.bootstrapped then c else bootstrapped_with c (fetch_endpoints web)

  -- The date of an event, as `Lookup` reads it.
  abbrev pub event_date : Text → Result Time
  event_date date =
      wrap (λ e. codes "rdap expiration date " ++ format_quoted date ++ codes ": " ++ e)
        (dec.parse_time date)

  -- The loop over the events of the answer: the first expiration decides.
  abbrev pub expiration : Text → List (Text × Text) → Result Time
  expiration url [] = err (codes "rdap " ++ url ++ codes ": no expiration event in response")
  expiration url ((action, date) ∷ events) =
      let rest = expiration url events in
      if equal_fold action (codes "expiration") then event_date date else rest

  -- `Lookup` from the decoding on.
  abbrev pub from_body : Text → Text → Result Time
  from_body url body =
      wrap (λ e. codes "rdap parse " ++ url ++ codes ": " ++ e) (dec.unmarshal_events body)
      >>= λ events. expiration url events

  -- The body that `Lookup` decodes.
  abbrev pub answer_body : Text → Response → Result Text
  answer_body url resp =
      body_of (codes "rdap read " ++ url ++ codes ": ")
        (λ n. codes "rdap " ++ url ++ codes ": status " ++ format_nat n) max_rdap_body_bytes resp

  -- `Lookup` from the answer on.
  abbrev pub from_answer : Text → Response → Result Time
  from_answer url resp = answer_body url resp >>= λ body. from_body url body

  -- `Lookup` from the request on.
  unfoldable pub query : Web → Text → Result Time
  unfolding format_nat format_quoted to_lower
  query web url = wrap (λ e. codes "rdap request: " ++ e) (web.new_request url) >>= λ _.
      wrap (λ e. codes "rdap fetch " ++ url ++ codes ": " ++ e) (web.send url) >>= λ resp.
      from_answer url resp

  -- The expiry of a domain, by a client whose bootstrap was tried.
  unfoldable pub resolve : Web → Client → Text → Result Time
  unfolding endpoint_for query to_lower trim_space
  resolve web c domain = elim c.bootstrap_err [
    | some e ↦ err e
    | none ↦
        endpoint_for c.tld_to_endpoint domain >>= λ endpoint. query web (url_for endpoint domain)
  ]

  -- `Lookup`, at the time that `time.Now` reads
  unfoldable pub client_lookup : Web → Time → Text → Client → DomainInfo × Client
  unfolding load_bootstrap resolve
  client_lookup web now domain c =
      let c' = load_bootstrap web c in (info_of now domain (resolve web c' domain), c')
