-- ===== src/Runner/Build.antt =====
-- internal/runner/build.go: the dependencies that the configuration names.
use auto_cert.Base.{
  ◌≡◌, sym, ap, Bool, true, List, [], ◌++◌, ◌||◌, list_eq, nat_eq, if◌then◌else◌, ◌==◌,
}
use auto_cert.Base.Int.{ℤ}
use auto_cert.Base.Text.{Text, codes}
use auto_cert.Base.Result.{Result, ok, err, ◌>>=◌, wrap, bind_inv, ok-injective}

-- The parts of `config.Config` that the builders read.
pub record Settings : Type 0 where
  pub state_backend : Text
  pub state_path : Text
  pub inventory_backend : Text
  pub inventory_path : Text
  pub cache_backend : Text
  pub cache_path : Text
  pub cache_ttl : ℤ
  pub notifier_backend : Text
  pub html_path : Text
  pub smtp_host : Text
  pub smtp_port : ℤ
  pub smtp_username : Text
  pub smtp_password : Text
  pub smtp_from : Text
  pub smtp_to : List Text

-- `rdap.Cache`
pub data CacheKind : Type 0 where
  noop : CacheKind
  file : Text → ℤ → CacheKind

-- `notify.Notifier`
pub data NotifierKind : Type 0 where
  dry_run : Text → NotifierKind
  -- by host, port, username, password, sender and recipients
  smtp : Text → ℤ → Text → Text → Text → List Text → NotifierKind

-- `Deps`; the store and the sink are those on a path.
pub record BuiltDeps : Type 0 where
  pub state : Text
  pub inventory : Text
  pub notifier : NotifierKind
  pub rdap_cache : CacheKind
  pub dry_run_skips_state_save : Bool

-- `buildRDAPCache`
abbrev pub build_rdap_cache : Settings → Result CacheKind
build_rdap_cache cfg =
    if cfg.cache_backend == [] || cfg.cache_backend == codes "none"
    then ok noop
    else if cfg.cache_backend == codes "file"
    then ok (
        file (if cfg.cache_path == [] then codes "state/rdap-cache.json" else cfg.cache_path)
          cfg.cache_ttl)
    else err (codes "rdap.cache.backend \"" ++ cfg.cache_backend ++ codes "\": must be none|file")

-- `buildState`
abbrev pub build_state : Settings → Result Text
build_state cfg =
    if cfg.state_backend == codes "file"
    then ok cfg.state_path
    else err (codes "state.backend \"" ++ cfg.state_backend ++ codes "\": must be file")

-- `buildInventory`
abbrev pub build_inventory : Settings → Result Text
build_inventory cfg =
    if cfg.inventory_backend == codes "file"
    then ok cfg.inventory_path
    else err (codes "inventory.backend \"" ++ cfg.inventory_backend ++ codes "\": must be file")

-- `buildNotifier`
abbrev pub build_notifier : Settings → Bool → Result NotifierKind
build_notifier cfg force_dry_run =
    let backend = if force_dry_run then codes "dryrun" else cfg.notifier_backend in
    if backend == codes "dryrun"
    then ok (dry_run cfg.html_path)
    else if backend == codes "smtp"
    then (if cfg.smtp_host == [] || cfg.smtp_from == [] || cfg.smtp_to == []
        then err (codes "smtp: host, from, and at least one to are required")
        else ok (
            smtp cfg.smtp_host cfg.smtp_port cfg.smtp_username cfg.smtp_password cfg.smtp_from
              cfg.smtp_to))
    else err (codes "notifier.backend \"" ++ backend ++ codes "\": must be dryrun|smtp")

-- `BuildDeps`
unfoldable pub build_deps : Settings → Bool → Result BuiltDeps
build_deps cfg force_dry_run = wrap (λ e. codes "build state: " ++ e) (build_state cfg) >>= λ store.
    (wrap (λ e. codes "build inventory: " ++ e) (build_inventory cfg) >>= λ sink.
    (wrap (λ e. codes "build notifier: " ++ e) (build_notifier cfg force_dry_run) >>= λ n.
    (wrap (λ e. codes "build rdap cache: " ++ e) (build_rdap_cache cfg) >>= λ cache. ok (record {
      state = store;
      inventory = sink;
      notifier = n;
      rdap_cache = cache;
      dry_run_skips_state_save = force_dry_run;
    }))))

-- Whatever backend is configured, a forced dry run that can be built has no mail server and does
-- not save the state.
pub build_deps_dry :
    (cfg : Settings) {deps : BuiltDeps}
    → build_deps cfg true ≡ ok deps
    → (deps.notifier ≡ dry_run cfg.html_path) × (deps.dry_run_skips_state_save ≡ true)
unfolding build_deps
build_deps_dry cfg h =
    let (store, at_store, _) =
      bind_inv _ (wrap (λ e. codes "build state: " ++ e) (build_state cfg)) h in
    let (sink, at_sink, _) =
      bind_inv _ (wrap (λ e. codes "build inventory: " ++ e) (build_inventory cfg)) at_store in
    let (cache, at_cache, _) =
      bind_inv _ (wrap (λ e. codes "build rdap cache: " ++ e) (build_rdap_cache cfg)) at_sink in
    let same = ok-injective at_cache in
    (
      ap (λ (d : BuiltDeps). d.notifier) (sym same),
      ap (λ (d : BuiltDeps). d.dry_run_skips_state_save) (sym same),
    )
