-- ===== src/Rdap/Client/Answers.antt =====
-- `Lookup` finds a date exactly if the registry of the domain's endpoint answers with one.
use auto_cert.Base.{
  take, ◌≡◌, refl, sym, ap, ◌∙◌, ℕ, true, false, none, some, List, [], ◌∷◌, ◌++◌, list_eq, nat_eq,
  arith, Bool-cases, ◌==◌, inl, inr, Option-cases, eq_of_same, ◌⊎◌,
}
use auto_cert.Base.Text.{Text, codes, equal_fold, format_nat}
use auto_cert.Base.Result.{wrap-ok, Result, ok, err, ◌>>=◌, wrap, bind_inv, ok-injective, ok-ne-err}
use auto_cert.Http.{Web, Response}
use auto_cert.Model.{DomainInfo}
use auto_cert.Time.{Time, zero_time, utc}
use auto_cert.Rdap.Client.{
  Client, Decoders, endpoint_for, url_for, resolve, query, expiration, info_of, client_lookup,
  load_bootstrap, body_of, from_body, from_answer, answer_body, max_rdap_body_bytes,
}

body_of-ok :
    (reading : Text) (refused : ℕ → Text) (limit : ℕ) (resp : Response) {body : Text}
    → body_of reading refused limit resp ≡ ok body
    → (resp.status ≡ 200) × (whole : Text) × (resp.body ≡ ok whole) × (body ≡ take limit whole)
body_of-ok reading refused limit resp h = elim (Bool-cases (resp.status == 200)) [
  | inr k ↦ cc (rw k at h)
  | inl k ↦
      let (whole, at, read) =
        bind_inv (λ whole. ok (take limit whole)) (wrap (λ e. reading ++ e) resp.body)
          (rw k at h) in
      (eq_of_same resp.status 200 k, whole, wrap-ok _ resp.body read, sym (ok-injective at))
]

abbrev on_request : Text → Text
on_request e = codes "rdap request: " ++ e

abbrev on_fetch : Text → Text → Text
on_fetch url e = codes "rdap fetch " ++ url ++ codes ": " ++ e

abbrev on_parse : Text → Text → Text
on_parse url e = codes "rdap parse " ++ url ++ codes ": " ++ e

module _ (dec : Decoders) where
  -- The first expiration among the events has this date.
  pub data Expires (t : Time) : List (Text × Text) → Type 0 where
    here :
        {action date : Text} {events : List (Text × Text)}
        → equal_fold action (codes "expiration") ≡ true
        → dec.parse_time date ≡ ok t
        → Expires t ((action, date) ∷ events)
    later :
        {action date : Text} {events : List (Text × Text)}
        → equal_fold action (codes "expiration") ≡ false
        → Expires t events
        → Expires t ((action, date) ∷ events)

  expiration-Expires :
      (url : Text) (events : List (Text × Text)) {t : Time}
      → expiration dec url events ≡ ok t
      → Expires t events
  expiration-Expires url [] h = cc
  expiration-Expires url ((action, date) ∷ events) h =
      elim (Bool-cases (equal_fold action (codes "expiration"))) [
        | inl k ↦ here k (wrap-ok _ (dec.parse_time date) (rw k at h))
        | inr k ↦ later k (expiration-Expires url events (rw k at h))
      ]

  Expires-expiration :
      (url : Text) {t : Time} {events : List (Text × Text)}
      → Expires t events
      → expiration dec url events ≡ ok t
  Expires-expiration url (here k parsed) = rw k (rw parsed)
  Expires-expiration url (later k e) = rw k (Expires-expiration url e)

  -- The registry of the endpoint answers with the date, for a client that tried its bootstrap.
  pub record Registered (web : Web) (c : Client) (domain : Text) (t : Time) : Type 0 where
    pub booted : c.bootstrap_err ≡ none
    pub endpoint : Text
    pub endpoint_is : endpoint_for c.tld_to_endpoint domain ≡ ok endpoint
    pub requested : web.new_request (url_for endpoint domain) ≡ ok tt
    pub response : Response
    pub answered : web.send (url_for endpoint domain) ≡ ok response
    pub status_ok : response.status ≡ 200
    pub body : Text
    pub read : response.body ≡ ok body
    pub events : List (Text × Text)
    pub parsed : dec.unmarshal_events (take max_rdap_body_bytes body) ≡ ok events
    pub expires : Expires t events

  module _ (web : Web) (c : Client) (domain : Text) {t : Time} where
    query-Registered :
        (endpoint : Text)
        → c.bootstrap_err ≡ none
        → endpoint_for c.tld_to_endpoint domain ≡ ok endpoint
        → query dec web (url_for endpoint domain) ≡ ok t
        → Registered web c domain t
    unfolding query
    query-Registered endpoint booted at h =
        let url = url_for endpoint domain in
        let (_, sent, requested) =
          bind_inv (λ (_ : Unit {0}). wrap (on_fetch url) (web.send url) >>= from_answer dec url)
            (wrap on_request (web.new_request url)) h in
        let (resp, got, answered) =
          bind_inv (from_answer dec url) (wrap (on_fetch url) (web.send url)) sent in
        let (text, decoded, body) = bind_inv (from_body dec url) (answer_body dec url resp) got in
        let (events, found, parsed) =
          bind_inv (expiration dec url) (wrap (on_parse url) (dec.unmarshal_events text)) decoded in
        let (status, whole, read, cut) =
          body_of-ok (codes "rdap read " ++ url ++ codes ": ")
            (λ n. codes "rdap " ++ url ++ codes ": status " ++ format_nat n) max_rdap_body_bytes
            resp body in
        record {
          booted = booted;
          endpoint = endpoint;
          endpoint_is = at;
          requested = wrap-ok on_request (web.new_request url) requested;
          response = resp;
          answered = wrap-ok (on_fetch url) (web.send url) answered;
          status_ok = status;
          body = whole;
          read = read;
          events = events;
          parsed =
              ap dec.unmarshal_events (sym cut)
              ∙ wrap-ok (on_parse url) (dec.unmarshal_events text) parsed;
          expires = expiration-Expires url events found;
        }

    resolve-Registered : resolve dec web c domain ≡ ok t → Registered web c domain t
    unfolding resolve
    resolve-Registered h = elim (Option-cases c.bootstrap_err) [
      | inr (e, k) ↦ cc (rw k at h)
      | inl k ↦
          let (endpoint, queried, at) =
            bind_inv (λ endpoint. query dec web (url_for endpoint domain))
              (endpoint_for c.tld_to_endpoint domain) (rw k at h) in
          query-Registered endpoint k at queried
    ]

    Registered-answer :
        (r : Registered web c domain t)
        → from_answer dec (url_for r.endpoint domain) r.response ≡ ok t
    Registered-answer r = ground (
      arith,
      r.status_ok,
      r.read,
      r.parsed,
      Expires-expiration (url_for r.endpoint domain) r.expires,
    )

    Registered-query :
        (r : Registered web c domain t) → query dec web (url_for r.endpoint domain) ≡ ok t
    unfolding query
    Registered-query r = rw (r.requested, wrap) (rw (r.answered, wrap) (Registered-answer r))

    Registered-resolve : Registered web c domain t → resolve dec web c domain ≡ ok t
    unfolding resolve
    Registered-resolve r = ground (arith, r.booted, Registered-query r)

  -- The info of a lookup carries its domain and the time of the call, and has no error exactly if
  -- it has the date.
  pub record Describes (now : Time) (domain : Text) (web : Web) (c : Client) (info : DomainInfo)
      : Type 0 where
    pub named : info.domain ≡ domain
    pub checked : info.checked_at ≡ utc now
    pub outcome :
        ((info.err ≡ none) × (info.source ≡ codes "rdap") × Registered web c domain info.expires_at)
        ⊎ ((e : Text) × (info.err ≡ some e)
            × (info.expires_at ≡ zero_time)
            × ((t : Time) → ¬ Registered web c domain t))

  module _ (now : Time) (web : Web) (domain : Text) where
    info_of-Describes :
        (c : Client) (r : Result Time)
        → resolve dec web c domain ≡ r
        → Describes now domain web c (info_of now domain r)
    info_of-Describes c (ok t) h = record {
      named = refl;
      checked = refl;
      outcome = inl (refl, refl, resolve-Registered web c domain h);
    }
    info_of-Describes c (err e) h = record {
      named = refl;
      checked = refl;
      outcome = inr (e, refl, refl, λ t r. ok-ne-err (sym (Registered-resolve web c domain r) ∙ h));
    }

    -- `Lookup` always returns its domain and the time of the call. It has no error exactly if the
    -- bootstrap went well, the domain has an endpoint, and the registry answers there with status
    -- 200 and a body, of at most a megabyte, whose first expiration has a date, which is then the
    -- date of the info; on an error the date is zero.
    pub client_lookup-Describes :
        (c : Client)
        → Describes now domain web (load_bootstrap dec web c) (client_lookup dec web now domain c).0
    unfolding client_lookup
    client_lookup-Describes c = info_of-Describes (load_bootstrap dec web c) _ refl
