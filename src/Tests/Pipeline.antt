-- ===== src/Tests/Pipeline.antt =====
-- internal/rdap, internal/tlscheck, internal/notify, internal/inventory and internal/runner at
-- concrete inputs.
use mathlib.Core.List.{Perm, map}
use mathlib.Core.List.Perm
use auto_cert.Base.{
  ℕ, ◌+◌, true, ◌≡◌, refl, false, ◌&&◌, Option, none, some, List, [], ◌∷◌, list_eq, nat_eq, is_none,
  length,
}
use auto_cert.Base.Int.{pos}
use auto_cert.Base.Text.{Text, codes}
use auto_cert.Base.Members.{collect}
use auto_cert.Base.Result.{ok}
use auto_cert.Base.Sort.Laws.{IsSorted}
use auto_cert.Base.Sort.Order.{lt_text, on}
use auto_cert.Model.{Domain, DomainInfo}
use auto_cert.Time.{utc, Time}
use auto_cert.Rdap.Enrich.{group_by_apex, enrich}
use auto_cert.Rdap.Enrich.Results.{enrich_order, done_in}
use auto_cert.Tls.{Job, jobs_from, Network, check, check_all}
use auto_cert.Tls.Workers.{check_all_order}
use auto_cert.Notify.Summary.{build_summary}
use auto_cert.Notify.Summary.Totals.{IsCounted, summary_counts}
use auto_cert.Notify.Summary.Health.{is_registrable, health_of}
use auto_cert.Inventory.{Entry, build}
use auto_cert.Inventory.Entries.{shown_entry, build_entries}
use auto_cert.Runner.{Deps, run, alerts}
use auto_cert.Runner.Build.{Settings, BuiltDeps, dry_run, noop, build_deps, build_deps_dry}
use auto_cert.Runner.Outcomes.{
  mail_of, save_of, ping_of, only_if, has_news, goes_on, fresh, expected_error, run_outcome,
  run_error,
}
use auto_cert.Tests.Samples.{
  example_alert, day, example_domain, www_domain, example_cert, example_info,
}

-- The registrable domain of the two names.
abbrev suffixes : Text → Option Text
suffixes name = some (codes "example.com")

abbrev answer : Text → DomainInfo
answer apex = example_info

abbrev now : Time
now = day (pos 95)

abbrev two_domains : List Domain
two_domains = example_domain ∷ www_domain ∷ []

-- The clock during the run; each check is a day later than the last.
abbrev lookup_clock : Text → Time
lookup_clock apex = day (pos 96)

abbrev check_clock : ℕ → Time
check_clock i = day (pos (96 + i))

-- Only the apex is marked as one.
enrich_test :
    enrich suffixes answer lookup_clock (pos 0) two_domains
    ≡ example_info ∷ record example_info { domain = codes "www.example.com"; is_apex = false } ∷ []
unfolding enrich
enrich_test = refl

enrich_order_example :
    done_in suffixes two_domains answer lookup_clock (pos 0) (group_by_apex suffixes two_domains)
    ≡ enrich suffixes answer lookup_clock (pos 0) two_domains
enrich_order_example =
    enrich_order suffixes two_domains answer lookup_clock (pos 0)
      (group_by_apex suffixes two_domains) Perm.rfl

abbrev sample_network : Network
sample_network = record {
  dial = λ addr. ok tt;
  handshake = λ addr host. ok tt;
  peer_certificates = λ addr host.
      record {
        not_after = day (pos 100);
        issuer = codes "CN=R3";
        subject = codes "CN=example.com";
        dns_names = [];
      }
      ∷ [];
}

check_all_order_example :
    check_all sample_network check_clock two_domains ((1, www_domain) ∷ (0, example_domain) ∷ [])
    ≡ map
        (λ (j : Job). check sample_network (check_clock j.0) j.1.name j.1.port)
        (jobs_from 0 two_domains)
check_all_order_example =
    check_all_order sample_network check_clock two_domains
      ((1, www_domain) ∷ (0, example_domain) ∷ [])
      (Perm.swap (0, example_domain) (1, www_domain) [])

summary_counts_example :
    IsCounted
      (is_registrable suffixes)
      (health_of (example_cert ∷ []) (example_alert ∷ []))
      two_domains
      (build_summary suffixes now two_domains (example_cert ∷ []) (example_alert ∷ []))
summary_counts_example =
    summary_counts suffixes now two_domains (example_cert ∷ []) (example_alert ∷ [])

build_entries_example :
    let s = build now two_domains (example_info ∷ []) (example_cert ∷ []) (example_alert ∷ []) in
    Perm s.entries
      (map (shown_entry (example_info ∷ []) (example_cert ∷ []) (example_alert ∷ [])) two_domains)
    × (s.total ≡ length two_domains)
    × IsSorted (on (λ (e : Entry). e.name) lt_text) s.entries
    × (s.generated_at ≡ utc now)
build_entries_example =
    build_entries now two_domains (example_info ∷ []) (example_cert ∷ []) (example_alert ∷ [])

-- A run with news, whose mail cannot be delivered.
abbrev sample_deps : Deps
sample_deps = record {
  discoverers = record { name = codes "static"; answer = ok two_domains } ∷ [];
  default_port = pos 443;
  etld_plus_one = suffixes;
  look_up = answer;
  tolerance = pos 0;
  has_cache = false;
  network = sample_network;
  now = now;
  lookup_clock = lookup_clock;
  check_clock = check_clock;
  thresholds = pos 7 ∷ [];
  inventory_save = λ s. some (codes "disk full");
  state_filter = λ all. ok all;
  marshal_xlsx = λ s. ok [];
  notify = λ all. some (codes "refused");
  state_save = λ all. none;
  dry_run_skips_state_save = false;
}

run_outcome_example :
    (collect mail_of (run sample_deps).0 ≡ only_if (has_news sample_deps) (alerts sample_deps))
    × (collect save_of (run sample_deps).0
        ≡ only_if (has_news sample_deps && goes_on sample_deps) (fresh sample_deps))
    × (collect ping_of (run sample_deps).0 ≡ is_none (run sample_deps).1 ∷ [])
run_outcome_example = run_outcome sample_deps

run_error_example :
    (run sample_deps).1 ≡ expected_error sample_deps (sample_deps.state_filter (alerts sample_deps))
run_error_example =
    run_error sample_deps {d = record { name = codes "static"; answer = ok two_domains }} {ds = []}
      refl

abbrev smtp_settings : Settings
smtp_settings = record {
  state_backend = codes "file";
  state_path = codes "state.json";
  inventory_backend = codes "file";
  inventory_path = codes "inventory.json";
  cache_backend = codes "none";
  cache_path = [];
  cache_ttl = pos 0;
  notifier_backend = codes "smtp";
  html_path = codes "mail.html";
  smtp_host = codes "mail.example.com";
  smtp_port = pos 587;
  smtp_username = [];
  smtp_password = [];
  smtp_from = codes "monitor@example.com";
  smtp_to = codes "ops@example.com" ∷ [];
}

abbrev dry_deps : BuiltDeps
dry_deps = record {
  state = codes "state.json";
  inventory = codes "inventory.json";
  notifier = dry_run (codes "mail.html");
  rdap_cache = noop;
  dry_run_skips_state_save = true;
}

build_deps_test : build_deps smtp_settings true ≡ ok dry_deps
unfolding build_deps
build_deps_test = refl

build_deps_dry_example :
    (dry_deps.notifier ≡ dry_run smtp_settings.html_path)
    × (dry_deps.dry_run_skips_state_save ≡ true)
build_deps_dry_example = build_deps_dry smtp_settings {deps = dry_deps} build_deps_test
