-- ===== src/Tests/Settings.antt =====
-- internal/config and internal/healthcheck at concrete inputs.
use auto_cert.Base.{◌≡◌, refl, true, false, [], ◌∷◌, list_eq, nat_eq, All}
use auto_cert.Base.Int.{pos, int_eq}
use auto_cert.Base.Text.{codes}
use auto_cert.Base.Result.{ok}
use auto_cert.Http.{Web}
use auto_cert.Config.{Config, flatten_csv, apply_defaults}
use auto_cert.Config.Defaults.{IsAddress, apply_defaults_once}
use auto_cert.Healthcheck.{new_pinger, ping, ping_ok, ping_failure}

-- Only the recipients and the ports are set.
abbrev sample_config : Config
sample_config = record {
  discovery = record {
    route53 = record { enabled = true; region = []; profile = []; exclude_zones = [] };
    cloudflare = record { enabled = false; api_token = [] };
    namecom = record { enabled = false; username = []; token = []; base_url = [] };
    static = record { enabled = true; path = codes "domains.yaml" };
  };
  tls = record { timeout = pos 0; workers = pos 0; default_port = pos 8443 };
  rdap = record {
    enrich_workers = pos 0;
    mismatch_tolerance_days = pos 1;
    cache = record { backend = []; ttl = pos 0; path = [] };
  };
  thresholds = [];
  secrets = record { backend = []; dotenv_path = [] };
  notifier = record {
    backend = codes "smtp";
    smtp = record {
      host = codes "mail";
      port = pos 25;
      username = [];
      password = [];
      from = codes "a@x";
      to = codes "b@y, c@z" ∷ codes " ," ∷ [];
    };
    dry_run = record { html_path = [] };
  };
  state = record { backend = []; path = [] };
  inventory = record { backend = []; path = [] };
  healthcheck = record { url = []; failure_url = []; timeout = pos 0 };
}

flatten_test : flatten_csv (codes "b@y, c@z" ∷ codes " ," ∷ []) ≡ codes "b@y" ∷ codes "c@z" ∷ []
unfolding flatten_csv
flatten_test = refl

apply_defaults_once_example :
    (apply_defaults (apply_defaults sample_config) ≡ apply_defaults sample_config)
    × All IsAddress (apply_defaults sample_config).notifier.smtp.to
apply_defaults_once_example = apply_defaults_once sample_config

abbrev sample_web : Web
sample_web = record {
  new_request = λ url. ok tt;
  send = λ url. ok (record { status = 200; body = ok [] });
}

ping_test :
    ping_failure sample_web (new_pinger (codes "https://hc/1") (pos 0)) []
    ≡ (codes "https://hc/1/fail" ∷ [], ping_ok 200)
unfolding ping
ping_test = refl
