-- ===== src/Tests/Accounts.antt =====
-- internal/discovery/namecom.go at a concrete account.
use mathlib.Core.List.{Mem, Nodup, map, mem-cons_self}
use auto_cert.Base.{◌≡◌, ◌≢◌, refl, ap, ◌+◌, true, none, some, List, [], ◌∷◌, arith}
use auto_cert.Base.Int.{ℤ, pos}
use auto_cert.Base.Text.{Text, codes}
use auto_cert.Base.Result.{Result, ok, err, ok-injective}
use auto_cert.Model.{Domain}
use auto_cert.Discovery.Hosts.{normalize_host, is_monitorable_host}
use auto_cert.Discovery.NameCom.{Client, fetch_domains, fetch_records, discover}
use auto_cert.Discovery.NameCom.Paging.{IsBounded}
use auto_cert.Discovery.NameCom.Results.{
  IsBoundedAccount, namecom_ends, namecom_clean, namecom_listed,
}

-- One domain, whose records cannot be parsed.
abbrev sample_client : Client
sample_client = record {
  base_url = codes "https://api.name.com";
  http = λ endpoint. ok (record { status = 200; body = ok (codes "{}") });
  unmarshal_domains = λ body. ok (record { domains = codes "example.org" ∷ []; next_page = pos 0 });
  unmarshal_records = λ body. err (codes "unexpected end");
  path_escape = λ s. s;
}

domains-IsBounded : IsBounded (fetch_domains sample_client) 0
unfolding fetch_domains
domains-IsBounded current here n h =
    let last : pos 0 ≡ pos n = ap (λ p. p.1) (ok-injective {A = List Text × ℤ} h) in
    ground (arith, last)

records-IsBounded : (domain : Text) → IsBounded (fetch_records sample_client domain) 0
unfolding fetch_records
records-IsBounded domain current here n h = cc

account-IsBounded : IsBoundedAccount sample_client 0
account-IsBounded = record { domains = domains-IsBounded; records = records-IsBounded }

namecom_ends_example :
    (r : Result (List Domain)) × (discover (codes "user") (codes "token") sample_client (0 + 1)
      ≡ some r)
namecom_ends_example = namecom_ends (codes "user") (codes "token") sample_client 0 account-IsBounded

abbrev listed_domains : List Domain
listed_domains =
    record {
      name = codes "example.org";
      port = pos 0;
      source = codes "namecom";
      expiry_fallback = none;
    }
    ∷ []

namecom_test : discover (codes "user") (codes "token") sample_client 1 ≡ some (ok listed_domains)
unfolding discover normalize_host
namecom_test = refl

namecom_clean_example :
    Nodup (map (λ (d : Domain). d.name) listed_domains)
    × ((n : Text)
        → Mem n (map (λ (d : Domain). d.name) listed_domains)
        → (n ≢ []) × (is_monitorable_host n ≡ true))
namecom_clean_example =
    namecom_clean sample_client 1 (codes "user") (codes "token") {out = listed_domains} namecom_test

not_nil : normalize_host (codes "example.org") ≢ []
unfolding normalize_host
not_nil e = cc

namecom_listed_example :
    Mem (normalize_host (codes "example.org")) (map (λ (d : Domain). d.name) listed_domains)
unfolding normalize_host is_monitorable_host fetch_domains
namecom_listed_example =
    namecom_listed sample_client 1 (codes "example.org") not_nil refl (codes "user") (codes "token")
      {ds = codes "example.org" ∷ []} {out = listed_domains} namecom_test refl mem-cons_self
