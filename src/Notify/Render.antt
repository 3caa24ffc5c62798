-- ===== src/Notify/Render.antt =====
-- internal/notify/render.go: the subject and the plain text of the mail.
use auto_cert.Base.{
  ℕ, zero, suc, ◌-◌, List, [], ◌∷◌, ◌++◌, ◌||◌, list_eq, nat_eq, if◌then◌else◌, ◌==◌, length, take,
  replicate,
}
use auto_cert.Base.Int.{ℤ, pos, negsuc, negate}
use auto_cert.Base.Text.{Text, codes, join, format_nat, format_int}
use auto_cert.Base.Members.{collect}
use auto_cert.Model.{Alert, AlertKind, cert_expiring, cert_expired, domain_expiring, domain_expired}
use auto_cert.Time.{Time, utc}
use auto_cert.Notify.Summary.{Summary, SourceStat}
use auto_cert.Notify.Bucket.{Buckets, bucket_and_dedup}
use mathlib.Core.List.{map}

-- A `strings.Builder` after its writes.
abbrev pub build : List Text → Text
build [] = []
build (s ∷ parts) = s ++ build parts

-- `t.Format`, by the layouts that the mail uses: `2006-01-02`, `2006-01-02 15:04` and
-- `Mon 02 Jan 2006, 15:04`.
pub record Layouts : Type 0 where
  pub date : Time → Text
  pub stamp : Time → Text
  pub long_stamp : Time → Text

-- `%+d`
unfoldable pub format_signed : ℤ → Text
unfolding format_nat
format_signed (pos n) = b'+' ∷ format_nat n
format_signed (negsuc n) = b'-' ∷ format_nat (suc n)

-- `%-22s` and the like.
unfoldable pub pad_right : ℕ → Text → Text
pad_right n s = s ++ replicate (n - length s) 32

-- The urgency of the mail, by the sizes of its buckets.
pub data Level : Type 0 where
  critical : Level
  warning : Level
  info : Level
  fine : Level

-- The switch of `emailStatus` and of `buildSubject`.
abbrev pub level_of_mail : ℕ → ℕ → ℕ → Level
level_of_mail (suc n) expiring mismatch = critical
level_of_mail zero (suc n) mismatch = warning
level_of_mail zero zero (suc n) = info
level_of_mail zero zero zero = fine

abbrev pub accent : Level → Text
accent critical = codes "#dc2626"
accent warning = codes "#d97706"
accent info = codes "#7c3aed"
accent fine = codes "#059669"

abbrev pub label : Level → Text
label critical = codes "Acción requerida"
label warning = codes "Vencimientos próximos"
label info = codes "Inconsistencias detectadas"
label fine = codes "Todo en orden"

-- `strings.ToUpper` of the label
abbrev pub upper_label : Level → Text
upper_label critical = codes "ACCIÓN REQUERIDA"
upper_label warning = codes "VENCIMIENTOS PRÓXIMOS"
upper_label info = codes "INCONSISTENCIAS DETECTADAS"
upper_label fine = codes "TODO EN ORDEN"

-- `emailStatus`: the accent and the label
abbrev pub email_status : ℕ → ℕ → ℕ → Text × Text
email_status expired expiring mismatch =
    let l = level_of_mail expired expiring mismatch in (accent l, label l)

-- `buildSubject`
unfoldable pub build_subject : ℕ → ℕ → ℕ → Summary → Text
unfolding format_nat
build_subject (suc n) (suc k) mismatch summary =
    codes "[auto-certs] "
    ++ format_nat (suc n)
    ++ codes " vencido(s) + "
    ++ format_nat (suc k)
    ++ codes " próximo(s) — acción requerida"
build_subject (suc n) zero mismatch summary =
    codes "[auto-certs] " ++ format_nat (suc n) ++ codes " vencido(s) — acción requerida"
build_subject zero (suc k) mismatch summary =
    codes "[auto-certs] " ++ format_nat (suc k) ++ codes " dominio(s) por vencer en ≤30 días"
build_subject zero zero (suc m) summary =
    codes "[auto-certs] " ++ format_nat (suc m) ++ codes " inconsistencia(s) RDAP vs registrador"
build_subject zero zero zero summary =
    codes "[auto-certs] Sin alertas — "
    ++ format_nat summary.tally.healthy
    ++ b'/' ∷ format_nat summary.total
    ++ codes " sanos"

-- ` y %d más`, if there are more.
abbrev more_domains : ℕ → Text
more_domains zero = []
more_domains (suc n) = codes " y " ++ format_nat (suc n) ++ codes " más"

-- `firstDomains`
unfoldable pub first_domains : List Alert → ℕ → Text
unfolding join format_nat
first_domains alerts n =
    join (map (λ (a : Alert). a.domain) (take n alerts)) (codes ", ")
    ++ more_domains (length alerts - n)

-- The lines of a summary, or the last one if there are none.
abbrev pub or_line : Text → List Text → List Text
or_line line [] = line ∷ []
or_line line (l ∷ lines) = l ∷ lines

-- The line of a bucket, if it is not empty.
abbrev pub line_of : (ℕ → Text) → List Alert → List Text
line_of line [] = []
line_of line (a ∷ alerts) = line (length (a ∷ alerts)) ∷ []

-- `tldrPlainLines`
unfoldable pub tldr_plain_lines : Buckets → Summary → List Text
unfolding first_domains format_nat
tldr_plain_lines b summary =
    or_line
      (codes "Sin alertas nuevas. "
        ++ format_nat summary.tally.healthy
        ++ b'/' ∷ format_nat summary.total
        ++ codes " dominios sanos.")
      (line_of
          (λ n.
            format_nat n ++ codes " vencido(s) — acción inmediata: " ++ first_domains b.expired 2)
          b.expired
        ++ (line_of
              (λ n. format_nat n ++ codes " por vencer en ≤30 días: " ++ first_domains b.expiring 2)
              b.expiring
            ++ line_of
                (λ n.
                  format_nat n
                  ++ codes " inconsistencia(s) entre RDAP y registrador (revisar YAML).")
                b.mismatch))

-- `shortKind`
abbrev pub short_kind : AlertKind → Text
short_kind k =
    if k == cert_expiring || k == cert_expired
    then codes "cert"
    else if k == domain_expiring || k == domain_expired
    then codes "domain"
    else k

-- `—` for the empty source.
abbrev pub or_dash : Text → Text
or_dash [] = codes "—"
or_dash (c ∷ s) = c ∷ s

module _ (layouts : Layouts) where
  -- The line of an alert in its section.
  abbrev pub expired_line : Alert → Text
  expired_line a =
      codes "  - "
      ++ a.domain
      ++ codes " ("
      ++ short_kind a.kind
      ++ codes ") — venció hace "
      ++ format_int (negate a.days_left)
      ++ codes " días (expiraba "
      ++ layouts.date a.expires_at
      ++ codes ")\n"

  abbrev pub expiring_line : Alert → Text
  expiring_line a =
      codes "  - "
      ++ a.domain
      ++ codes " ("
      ++ short_kind a.kind
      ++ codes ") — "
      ++ format_int a.days_left
      ++ codes " días restantes (vence "
      ++ layouts.date a.expires_at
      ++ codes ") [umbral "
      ++ format_int a.threshold
      ++ codes "]\n"

  abbrev pub mismatch_line : Alert → Text
  mismatch_line a =
      codes "  - "
      ++ a.domain
      ++ codes " — RDAP "
      ++ layouts.date a.expires_at
      ++ codes " vs YAML "
      ++ layouts.date a.fallback_expected
      ++ codes " (diferencia "
      ++ format_signed a.days_left
      ++ codes " días)\n"

  -- A section with its title, if there is an alert.
  abbrev pub section_lines : Text → (Alert → Text) → List Alert → Text
  section_lines title line [] = []
  section_lines title line (a ∷ alerts) = title ++ (collect line (a ∷ alerts) ++ codes "\n")

  abbrev pub source_line : SourceStat → Text
  source_line ss =
      codes "    "
      ++ pad_right 22 (or_dash ss.source)
      ++ codes "  total="
      ++ pad_right 3 (format_nat ss.total)
      ++ codes "  apex/sub="
      ++ format_nat ss.tally.apex
      ++ b'/' ∷ format_nat ss.tally.subdomain
      ++ codes "  sanos="
      ++ pad_right 3 (format_nat ss.tally.healthy)
      ++ codes "  alerta="
      ++ pad_right 3 (format_nat ss.tally.alerted)
      ++ codes "  sin_cert="
      ++ format_nat ss.tally.no_cert_data
      ++ codes "\n"

  abbrev pub source_lines : List SourceStat → Text
  source_lines [] = []
  source_lines (s ∷ stats) = codes "\n  Por origen:\n" ++ collect source_line (s ∷ stats)

  abbrev pub summary_lines : Summary → Text
  summary_lines s =
      codes "== ESTADO GENERAL ==\n"
      ++ codes "  Total: "
      ++ format_nat s.total
      ++ codes "  (apex: "
      ++ format_nat s.tally.apex
      ++ codes ", subdominios: "
      ++ format_nat s.tally.subdomain
      ++ codes ")\n"
      ++ codes "  Sanos: "
      ++ format_nat s.tally.healthy
      ++ codes "   Con alerta: "
      ++ format_nat s.tally.alerted
      ++ codes "   Sin cert: "
      ++ format_nat s.tally.no_cert_data
      ++ codes "\n"
      ++ source_lines s.by_source

  abbrev pub bullet : Text → Text
  bullet line = codes "  • " ++ line ++ codes "\n"

  -- The text of `Render`.
  abbrev pub render_body : Buckets → Summary → Time → Text
  render_body b summary now = build (
      (codes "["
        ++ upper_label (level_of_mail (length b.expired) (length b.expiring) (length b.mismatch))
        ++ codes "]\n")
      ∷ (codes "Reporte auto-certs — " ++ layouts.stamp (utc now) ++ codes " UTC\n\n")
      ∷ codes "== RESUMEN ==\n"
      ∷ collect bullet (tldr_plain_lines b summary)
      ∷ codes "\n"
      ∷ section_lines (codes "== VENCIDOS ==\n") expired_line b.expired
      ∷ section_lines (codes "== PRÓXIMOS A VENCER ==\n") expiring_line b.expiring
      ∷ section_lines (codes "== INCONSISTENCIAS RDAP vs REGISTRADOR ==\n") mismatch_line b.mismatch
      ∷ summary_lines summary
      ∷ [])

  -- `Render`: the subject and the text
  unfoldable pub render : List Alert → Summary → Time → Text × Text
  unfolding bucket_and_dedup build_subject tldr_plain_lines format_int format_signed pad_right
  render alerts summary now =
      let b = bucket_and_dedup alerts in
      (
        build_subject (length b.expired) (length b.expiring) (length b.mismatch) summary,
        render_body b summary now,
      )
