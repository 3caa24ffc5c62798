-- ===== src/Healthcheck.antt =====
-- internal/healthcheck/healthcheck.go: the pings at the end of a run.
use auto_cert.Base.{ℕ, ◌&&◌, not, List, [], ◌∷◌, ◌++◌, list_eq, nat_eq, if◌then◌else◌, ◌==◌, ltb}
use auto_cert.Base.Int.{ℤ, pos, lt_ℤ}
use auto_cert.Base.Text.{Text, codes}
use auto_cert.Base.Result.{Result, ok, err}
use auto_cert.Http.{Response, Web}

pub record Pinger : Type 0 where
  pub url : Text
  pub timeout : ℤ

-- Five seconds, in nanoseconds.
abbrev pub default_timeout : ℤ
default_timeout = pos 5000000000

-- `New`
abbrev pub new_pinger : Text → ℤ → Pinger
new_pinger url timeout = record {
  url = url;
  timeout = if lt_ℤ (pos 0) timeout then timeout else default_timeout;
}

-- What `ping` logs.
pub data Logged : Type 0 where
  nothing : Logged
  request_failed : Logged
  ping_failed : Logged
  non_2xx : ℕ → Logged
  ping_ok : ℕ → Logged

abbrev pub logged_of : Result Response → Logged
logged_of (err e) = ping_failed
logged_of (ok r) = if ltb r.status 400 then ping_ok r.status else non_2xx r.status

-- `ping`: the addresses that are asked, and what is logged.
unfoldable pub ping : Web → Text → List Text × Logged
ping web [] = ([], nothing)
ping web (c ∷ url) = elim (web.new_request (c ∷ url)) [
  | err e ↦ ([], request_failed)
  | ok _ ↦ ((c ∷ url) ∷ [], logged_of (web.send (c ∷ url)))
]

-- `Success`
abbrev pub ping_success : Web → Pinger → List Text × Logged
ping_success web p = ping web p.url

-- The address of a failure.
abbrev pub failure_target : Pinger → Text → Text
failure_target p failure_url =
    if failure_url == [] && not (p.url == []) then p.url ++ codes "/fail" else failure_url

-- `Failure`
abbrev pub ping_failure : Web → Pinger → Text → List Text × Logged
ping_failure web p failure_url = ping web (failure_target p failure_url)
