-- ===== src/Tests/Samples.antt =====
-- The domains, certificates, registrations and alerts that the tests share.
use auto_cert.Base.{true, none, []}
use auto_cert.Base.Int.{ℤ, pos, scale}
use auto_cert.Base.Text.{codes}
use auto_cert.Model.{Domain, CertInfo, DomainInfo, Alert, cert_expiring}
use auto_cert.Time.{Time, zero_time, day_ns}

-- The midnight of a day, counted from January 1 of the year 1.
abbrev pub day : ℤ → Time
day n = record { instant = scale n day_ns; zone = pos 0 }

abbrev pub example_domain : Domain
example_domain = record {
  name = codes "example.com";
  port = pos 443;
  source = codes "static";
  expiry_fallback = none;
}

abbrev pub www_domain : Domain
www_domain = record {
  name = codes "www.example.com";
  port = pos 443;
  source = codes "route53";
  expiry_fallback = none;
}

-- It runs out on day 100.
abbrev pub example_cert : CertInfo
example_cert = record {
  domain = codes "example.com";
  port = pos 443;
  not_after = day (pos 100);
  issuer = codes "CN=R3";
  subject = codes "CN=example.com";
  dns_names = [];
  checked_at = day (pos 95);
  err = none;
}

abbrev pub example_info : DomainInfo
example_info = record {
  domain = codes "example.com";
  expires_at = day (pos 400);
  source = codes "rdap";
  checked_at = day (pos 95);
  err = none;
  is_apex = true;
  fallback_expected = zero_time;
}

abbrev pub alert_at : Time → Alert
alert_at t = record {
  domain = codes "example.com";
  source = codes "static";
  kind = cert_expiring;
  expires_at = t;
  days_left = pos 5;
  threshold = pos 7;
  issuer = codes "CN=R3";
  fallback_expected = zero_time;
}

abbrev pub example_alert : Alert
example_alert = alert_at (day (pos 100))
