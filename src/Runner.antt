-- ===== src/Runner.antt =====
-- internal/runner/runner.go: one run of the pipeline.
pub mod Build
pub mod Outcomes
use auto_cert.Base.{
  ℕ, Bool, true, false, Option, none, some, List, [], ◌∷◌, ◌++◌, list_eq, nat_eq, if◌then◌else◌,
  ◌==◌,
}
use auto_cert.Base.Int.{ℤ}
use auto_cert.Base.Text.{Text, codes}
use auto_cert.Base.Result.{Result, ok, err}
use auto_cert.Model.{Domain, CertInfo, DomainInfo, Alert, Error}
use auto_cert.Time.{Time}
use auto_cert.Alert.{evaluate}
use auto_cert.Discovery as Discovery
use auto_cert.Discovery.{Finished, aggregate}
use auto_cert.Rdap.Enrich.{enrich}
use auto_cert.Tls.{Network, check_all, jobs_from}
use auto_cert.Notify.Summary.{Summary, build_summary}
use auto_cert.Inventory.{Snapshot, build}

-- What the run asks of its surroundings, with their answers: the discoverers in the order in which
-- they finish, the lookups, the network, the clock, and the dependencies of `Deps`, each with its
-- error. The store's `Filter` answers by the alerts it is given.
pub record Deps : Type 0 where
  pub discoverers : List Finished
  pub default_port : ℤ
  pub etld_plus_one : Text → Option Text
  pub look_up : Text → DomainInfo
  pub tolerance : ℤ
  pub has_cache : Bool
  pub network : Network
  pub now : Time
  -- The clock during the lookups, by the registrable domain, and during the checks, by the place.
  pub lookup_clock : Text → Time
  pub check_clock : ℕ → Time
  pub thresholds : List ℤ
  pub inventory_save : Snapshot → Error
  pub state_filter : List Alert → Result (List Alert)
  pub marshal_xlsx : Snapshot → Result Text
  pub notify : List Alert → Error
  pub state_save : List Alert → Error
  pub dry_run_skips_state_save : Bool

-- The calls that show outside the run.
pub data Event : Type 0 where
  -- `RDAPCache.Flush`
  flushed : Event
  -- `Inventory.Save`, with its error, which is only logged
  inventoried : Snapshot → Error → Event
  -- `Notifier.Notify`, with the attachment, if it could be built
  notified : List Alert → Summary → Option Text → Event
  -- `State.Save`
  saved : List Alert → Event
  -- `pinger.Success`
  success : Event
  -- `pinger.Failure`
  failure : Event

-- The calls of a part of the run, and the error it ends with.
abbrev pub Trace : Type 0
Trace = List Event × Error

module _ (deps : Deps) where
  abbrev pub domains : List Domain
  domains = (aggregate deps.default_port deps.discoverers).domains

  abbrev pub infos : List DomainInfo
  infos = enrich deps.etld_plus_one deps.look_up deps.lookup_clock deps.tolerance domains

  abbrev pub certs : List CertInfo
  certs = check_all deps.network deps.check_clock domains (jobs_from 0 domains)

  abbrev pub alerts : List Alert
  alerts = evaluate deps.now domains certs infos deps.thresholds

  abbrev pub summary : Summary
  summary = build_summary deps.etld_plus_one deps.now domains certs alerts

  abbrev pub snapshot : Snapshot
  snapshot = build deps.now domains infos certs alerts

  -- The attachments; nil if they cannot be built.
  abbrev pub attachment : Option Text
  attachment = elim (deps.marshal_xlsx snapshot) [ err e ↦ none | ok data' ↦ some data' ]

  -- `if !deps.DryRunSkipsStateSave { … }`
  abbrev pub save_state : List Alert → Trace
  save_state fresh =
      if deps.dry_run_skips_state_save then ([], none) else elim (deps.state_save fresh) [
        | none ↦ (saved fresh ∷ [], none)
        | some e ↦ (saved fresh ∷ [], some (codes "state save: " ++ e))
      ]

  -- The run from the mail on.
  abbrev pub deliver : List Alert → Trace
  deliver fresh = elim (deps.notify alerts) [
    | some e ↦ (notified alerts summary attachment ∷ [], some (codes "notify: " ++ e))
    | none ↦ let rest = save_state fresh in (notified alerts summary attachment ∷ rest.0, rest.1)
  ]

  abbrev pub after_filter : Result (List Alert) → Trace
  after_filter (err e) = ([], some (codes "state filter: " ++ e))
  after_filter (ok []) = ([], none)
  after_filter (ok (a ∷ fresh)) = deliver (a ∷ fresh)

  abbrev pub flush_events : List Event
  flush_events = if deps.has_cache then flushed ∷ [] else []

  -- The run behind the discoverers.
  abbrev pub pipeline : Trace
  pipeline =
      let rest = after_filter (deps.state_filter alerts) in
      (flush_events ++ inventoried snapshot (deps.inventory_save snapshot) ∷ rest.0, rest.1)

  -- The deferred ping.
  abbrev pub ping : Error → Event
  ping none = success
  ping (some e) = failure

  abbrev pub with_ping : Trace → Trace
  with_ping t = (t.0 ++ ping t.1 ∷ [], t.1)

  -- `if len(discoverers) == 0 { return nil }`
  abbrev pub unless_idle : List Finished → Trace
  unless_idle [] = ([], none)
  unless_idle (d ∷ ds) = pipeline

  -- `Run`
  unfoldable pub run : Trace
  unfolding aggregate enrich check_all evaluate build_summary build
  run = with_ping (unless_idle deps.discoverers)
