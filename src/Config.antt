-- ===== src/Config.antt =====
-- internal/config/config.go: the configuration and its defaults.
pub mod Defaults
use auto_cert.Base.{Bool, List, [], ◌∷◌, ◌++◌, list_eq, nat_eq, if◌then◌else◌, ◌==◌}
use auto_cert.Base.Int.{ℤ, pos, int_eq, scale}
use auto_cert.Base.Text.{Text, codes, split, trim_space}
use auto_cert.Base.Members.{collect}
use auto_cert.Base.Result.{Result, ok, err, ◌>>=◌, wrap}

pub record HealthcheckConfig : Type 0 where
  pub url : Text
  pub failure_url : Text
  pub timeout : ℤ

pub record Route53Config : Type 0 where
  pub enabled : Bool
  pub region : Text
  pub profile : Text
  pub exclude_zones : List Text

pub record CloudflareConfig : Type 0 where
  pub enabled : Bool
  pub api_token : Text

pub record NameComConfig : Type 0 where
  pub enabled : Bool
  pub username : Text
  pub token : Text
  pub base_url : Text

pub record StaticConfig : Type 0 where
  pub enabled : Bool
  pub path : Text

pub record DiscoveryConfig : Type 0 where
  pub route53 : Route53Config
  pub cloudflare : CloudflareConfig
  pub namecom : NameComConfig
  pub static : StaticConfig

pub record TlsConfig : Type 0 where
  pub timeout : ℤ
  pub workers : ℤ
  pub default_port : ℤ

pub record RdapCacheConfig : Type 0 where
  pub backend : Text
  pub ttl : ℤ
  pub path : Text

pub record RdapConfig : Type 0 where
  pub enrich_workers : ℤ
  pub mismatch_tolerance_days : ℤ
  pub cache : RdapCacheConfig

pub record SecretsConfig : Type 0 where
  pub backend : Text
  pub dotenv_path : Text

pub record SmtpConfig : Type 0 where
  pub host : Text
  pub port : ℤ
  pub username : Text
  pub password : Text
  pub from : Text
  pub to : List Text

pub record DryRunConfig : Type 0 where
  pub html_path : Text

pub record NotifierConfig : Type 0 where
  pub backend : Text
  pub smtp : SmtpConfig
  pub dry_run : DryRunConfig

pub record StateConfig : Type 0 where
  pub backend : Text
  pub path : Text

pub record InventoryConfig : Type 0 where
  pub backend : Text
  pub path : Text

pub record Config : Type 0 where
  pub discovery : DiscoveryConfig
  pub tls : TlsConfig
  pub rdap : RdapConfig
  pub thresholds : List ℤ
  pub secrets : SecretsConfig
  pub notifier : NotifierConfig
  pub state : StateConfig
  pub inventory : InventoryConfig
  pub healthcheck : HealthcheckConfig

-- A text, or its default if it is empty.
abbrev pub or_text : Text → Text → Text
or_text default [] = default
or_text default (c ∷ s) = c ∷ s

abbrev pub or_int : ℤ → ℤ → ℤ
or_int default n = if n == pos 0 then default else n

abbrev pub or_ints : List ℤ → List ℤ → List ℤ
or_ints default [] = default
or_ints default (n ∷ ns) = n ∷ ns

-- A part of an entry, unless it is empty.
abbrev pub unless_empty : Text → List Text
unless_empty [] = []
unless_empty (c ∷ s) = (c ∷ s) ∷ []

-- The round of `flattenCSV` for an entry.
abbrev pub flatten_item : Text → List Text
flatten_item item = collect (λ p. unless_empty (trim_space p)) (split item b',')

-- `flattenCSV`
unfoldable pub flatten_csv : List Text → List Text
unfolding trim_space split
flatten_csv list = collect flatten_item list

-- `time.Second`, in nanoseconds
abbrev pub second : ℤ
second = pos 1000000000

-- `applyDefaults`
unfoldable pub apply_defaults : Config → Config
unfolding flatten_csv
apply_defaults c = record c {
  tls = record c.tls {
    default_port = or_int (pos 443) c.tls.default_port;
    workers = or_int (pos 30) c.tls.workers;
    timeout = or_int (scale (pos 10) 1000000000) c.tls.timeout;
  };
  rdap = record c.rdap {
    enrich_workers = or_int (pos 5) c.rdap.enrich_workers;
    cache = record c.rdap.cache {
      backend = or_text (codes "none") c.rdap.cache.backend;
      ttl = or_int (scale (pos 168) 3600000000000) c.rdap.cache.ttl;
    };
  };
  thresholds = or_ints (pos 30 ∷ pos 15 ∷ pos 7 ∷ pos 3 ∷ []) c.thresholds;
  secrets = record {
    backend = or_text (codes "env") c.secrets.backend;
    dotenv_path = or_text (codes ".env") c.secrets.dotenv_path;
  };
  notifier = record {
    backend = or_text (codes "dryrun") c.notifier.backend;
    smtp = record c.notifier.smtp { to = flatten_csv c.notifier.smtp.to };
    dry_run = record {
      html_path = or_text (codes "state/last-email.html") c.notifier.dry_run.html_path;
    };
  };
  state = record {
    backend = or_text (codes "file") c.state.backend;
    path = or_text (codes "state/alerts.json") c.state.path;
  };
  inventory = record {
    backend = or_text (codes "file") c.inventory.backend;
    path = or_text (codes "state/inventory.json") c.inventory.path;
  };
}

-- `Load`, with what reading the file, `os.ExpandEnv` and the YAML decoder answer.
unfoldable pub load_config :
    (Text → Result Text) → (Text → Text) → (Text → Result Config) → Text → Result Config
unfolding apply_defaults
load_config read_file expand_env unmarshal path =
    wrap (λ e. codes "read config " ++ path ++ codes ": " ++ e) (read_file path) >>= λ data'.
    wrap (λ e. codes "parse config " ++ path ++ codes ": " ++ e) (unmarshal (expand_env data'))
    >>= λ c. ok (apply_defaults c)
