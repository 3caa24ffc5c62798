-- ===== src/Tls.antt =====
-- internal/tlscheck/checker.go: the certificates of all domains.
pub mod Workers
use auto_cert.Base.{
  ℕ, suc, Bool, true, false, Option, none, some, List, [], ◌∷◌, ◌++◌, list_eq, nat_eq,
  if◌then◌else◌, ◌==◌, length, set, replicate,
}
use auto_cert.Base.Int.{ℤ, pos, le_ℤ, int_eq}
use auto_cert.Base.Text.{Text, codes, format_int, contains}
use auto_cert.Base.Result.{Result, ok, err}
use auto_cert.Model.{Domain, CertInfo}
use auto_cert.Time.{Time, zero_time, utc}

-- `Checker`
pub record Checker : Type 0 where
  pub timeout : ℤ
  pub workers : ℤ

-- `New`; a duration is in nanoseconds.
abbrev pub new : ℤ → ℤ → Checker
new timeout workers = record {
  timeout = if le_ℤ timeout (pos 0) then pos 10000000000 else timeout;
  workers = if le_ℤ workers (pos 0) then pos 30 else workers;
}

-- A leaf certificate, as far as `Check` reads it.
pub record Leaf : Type 0 where
  pub not_after : Time
  pub issuer : Text
  pub subject : Text
  pub dns_names : List Text

-- What the network answers at an address: the dial, the handshake by server name, and the chain.
pub record Network : Type 0 where
  pub dial : Text → Result (Unit {0})
  pub handshake : Text → Text → Result (Unit {0})
  pub peer_certificates : Text → Text → List Leaf

-- `net.JoinHostPort`
abbrev pub join_host_port : Text → Text → Text
join_host_port host port =
    if contains host b':' then b'[' ∷ host ++ codes "]:" ++ port else host ++ b':' ∷ port

abbrev pub failed_info : Text → ℤ → Time → Text → CertInfo
failed_info host port now e = record {
  domain = host;
  port = port;
  not_after = zero_time;
  issuer = [];
  subject = [];
  dns_names = [];
  checked_at = utc now;
  err = some e;
}

abbrev leaf_info : Text → ℤ → Time → Text → List Leaf → CertInfo
leaf_info host port now addr [] =
    failed_info host port now (codes "no peer certificates from " ++ addr)
leaf_info host port now addr (leaf ∷ rest) = record {
  domain = host;
  port = port;
  not_after = leaf.not_after;
  issuer = leaf.issuer;
  subject = leaf.subject;
  dns_names = leaf.dns_names;
  checked_at = utc now;
  err = none;
}

-- `Check` behind the default port.
abbrev pub check_at : Network → Time → Text → ℤ → Text → CertInfo
check_at net now host port addr = elim (net.dial addr) [
  | err e ↦ failed_info host port now (codes "tcp dial " ++ addr ++ codes ": " ++ e)
  | ok _ ↦ elim (net.handshake addr host) [
    | err e ↦ failed_info host port now (codes "tls handshake " ++ addr ++ codes ": " ++ e)
    | ok _ ↦ leaf_info host port now addr (net.peer_certificates addr host)
  ]
]

-- `if port == 0 { port = 443 }`
abbrev pub actual_port : ℤ → ℤ
actual_port port = if port == pos 0 then pos 443 else port

-- `Check`
unfoldable pub check : Network → Time → Text → ℤ → CertInfo
unfolding format_int
check net now host port =
    if host == []
    then failed_info host port now (codes "empty host")
    else check_at net now host (actual_port port)
        (join_host_port host (format_int (actual_port port)))

-- `job`
abbrev pub Job : Type 0
Job = ℕ × Domain

abbrev pub jobs_from : ℕ → List Domain → List Job
jobs_from i [] = []
jobs_from i (d ∷ ds) = (i, d) ∷ jobs_from (suc i) ds

-- `model.CertInfo{}`
abbrev pub blank_cert : CertInfo
blank_cert = record {
  domain = [];
  port = pos 0;
  not_after = zero_time;
  issuer = [];
  subject = [];
  dns_names = [];
  checked_at = zero_time;
  err = none;
}

module _ (run : ℕ → Domain → CertInfo) where
  -- The workers, by the jobs in the order in which they are done.
  abbrev pub work : List Job → List CertInfo → List CertInfo
  work [] out = out
  work ((i, d) ∷ jobs) out = work jobs (set out i (run i d))

-- `CheckAll`, by the order in which the jobs are done, and the clock, as it is read for the job at an
-- index; a job that is not done, since the context was cancelled, is not in the order.
unfoldable pub check_all : Network → (ℕ → Time) → List Domain → List Job → List CertInfo
unfolding check
check_all net clock domains order =
    work (λ i (d : Domain). check net (clock i) d.name d.port) order
      (replicate (length domains) blank_cert)
