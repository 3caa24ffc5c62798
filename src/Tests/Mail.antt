-- ===== src/Tests/Mail.antt =====
-- internal/notify: the mail at concrete inputs.
use auto_cert.Base.Text.Find.{is_clear}
use auto_cert.Notify.Mime.Mail.{IsMail, read_message-build_mime}
use auto_cert.Notify.Mime.{Attachment, build_mime, alternative, with_crlf}
use auto_cert.Base.Dict.{lookup, insert}
use auto_cert.Base.Sort.{sort_slice}
use mathlib.Core.List.{Perm}
use auto_cert.Base.{arith, ◌≡◌, refl, none, List, [], ◌∷◌, list_eq, nat_eq, keep, length}
use auto_cert.Base.Int.{pos}
use auto_cert.Base.Text.{has_prefix, join, format_quoted, codes}
use auto_cert.Model.{Alert, cert_expired, domain_mismatch}
use auto_cert.Time.{Time}
use auto_cert.Notify.Summary.{Summary, build_summary}
use auto_cert.Notify.Bucket.{
  sort_alerts, sort_alert, put_nearest, bucket_and_dedup, is_expired, is_mismatch,
}
use auto_cert.Notify.Bucket.Shown.{IsNearest, bucket_and_dedup_shown}
use auto_cert.Notify.Render.{Layouts, build_subject, render}
use auto_cert.Notify.Html.{render_html}
use auto_cert.Notify.Html.Badges.{issuer_short, extract_rdn}
use auto_cert.Notify.Html.Tags.{tags}
use auto_cert.Notify.Html.Whole.{page_tags, render_html-tags}
use auto_cert.Tests.Samples.{day, example_alert, example_domain, www_domain, example_cert}

-- A certificate within two thresholds, one that is over, and a date that differs.
abbrev four_alerts : List Alert
four_alerts =
    record example_alert { threshold = pos 15 }
    ∷ example_alert
    ∷ record example_alert { kind = cert_expired; domain = codes "<b>.org" }
    ∷ record example_alert { kind = domain_mismatch }
    ∷ []

abbrev layouts : Layouts
layouts = record {
  date = λ t. codes "2026-01-02";
  stamp = λ t. codes "2026-01-02 03:04";
  long_stamp = λ t. codes "Fri 02 Jan 2026, 03:04";
}

abbrev now : Time
now = day (pos 95)

abbrev summary : Summary
summary =
    build_summary (λ name. none) now (example_domain ∷ www_domain ∷ []) (example_cert ∷ [])
      four_alerts

bucket_test : (bucket_and_dedup four_alerts).expiring ≡ example_alert ∷ []
unfolding bucket_and_dedup sort_slice sort_alerts sort_alert put_nearest lookup insert
bucket_test = refl

bucket_and_dedup_shown_example :
    Perm (bucket_and_dedup four_alerts).expired (keep is_expired four_alerts)
    × Perm (bucket_and_dedup four_alerts).mismatch (keep is_mismatch four_alerts)
    × IsNearest four_alerts (bucket_and_dedup four_alerts).expiring
bucket_and_dedup_shown_example = bucket_and_dedup_shown four_alerts

subject_test :
    (render layouts four_alerts summary now).0
    ≡ codes "[auto-certs] 1 vencido(s) + 1 próximo(s) — acción requerida"
unfolding render bucket_and_dedup build_subject sort_slice sort_alerts sort_alert put_nearest lookup
    insert
subject_test = refl

issuer_test :
    issuer_short (codes "CN=Sectigo Public CA R36, O=Sectigo Limited,C=GB") ≡ codes "Sectigo"
unfolding issuer_short extract_rdn
issuer_test = refl

render_html-tags_example :
    tags (render_html layouts four_alerts summary now)
    ≡ page_tags
        (length (bucket_and_dedup four_alerts).expired)
        (length (bucket_and_dedup four_alerts).expiring)
        (length (bucket_and_dedup four_alerts).mismatch)
        (length summary.by_source)
unfolding tags
render_html-tags_example =
    render_html-tags layouts four_alerts summary now (refl, (refl, (refl, (refl, tt))))

abbrev hello : Attachment
hello = record { filename = codes "a.xlsx"; content_type = []; bytes = codes "UEs=" }

-- A message with an attachment, at two boundaries.
read_message-build_mime_example :
    IsMail
      (λ s. s)
      (codes "A1")
      (codes "B2")
      (codes "a@x")
      (codes "b@y" ∷ [])
      (codes "hi")
      (codes "one\ntwo")
      (codes "<p>")
      4
      (hello ∷ [])
      (build_mime
        (λ s. s)
        (codes "A1")
        (codes "B2")
        (codes "a@x")
        (codes "b@y" ∷ [])
        (codes "hi")
        (codes "one\ntwo")
        (codes "<p>")
        (hello ∷ []))
unfolding is_clear has_prefix with_crlf alternative join format_quoted
read_message-build_mime_example =
    read_message-build_mime (λ s. s) (codes "A1") (codes "B2") (codes "a@x") (codes "b@y" ∷ [])
      (codes "hi") (codes "one\ntwo") (codes "<p>") (hello ∷ []) 4 (omega arith) refl refl
      (refl, tt) (refl, (refl, tt)) (refl, (refl, tt))
