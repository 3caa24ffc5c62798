-- ===== src/Notify/Html.antt =====
-- internal/notify/html.go: the page of the mail.
pub mod Badges
pub mod Rows
pub mod Blocks
pub mod Tags
pub mod Page
pub mod Whole
use auto_cert.Base.{List, [], ◌∷◌, ◌++◌, length}
use auto_cert.Base.Text.{Text, codes, format_nat}
use auto_cert.Model.{Alert}
use auto_cert.Time.{Time}
use auto_cert.Notify.Summary.{Summary, SourceStat}
use auto_cert.Notify.Bucket.{Buckets, bucket_and_dedup}
use auto_cert.Notify.Render.{build, Layouts, email_status}
use auto_cert.Notify.Html.Badges.{escape_html}
use auto_cert.Notify.Html.Rows.{render_expired_rows, render_expiring_rows, render_mismatch_rows}
use auto_cert.Notify.Html.Blocks.{
  status_banner, tldr_section, tldr_lines, section_table, divider, section_header, inventory_kpis,
  source_table,
}

-- A table of alerts, if there is one.
abbrev pub table_of : (List Alert → Text) → List Alert → Text
table_of table [] = []
table_of table (a ∷ alerts) = table (a ∷ alerts)

abbrev pub table_of_sources : List SourceStat → Text
table_of_sources [] = []
table_of_sources (ss ∷ stats) = source_table (ss ∷ stats)

abbrev pub expired_columns : List Text
expired_columns =
    codes "Dominio"
    ∷ codes "Tipo"
    ∷ codes "Origen"
    ∷ codes "Emisor"
    ∷ codes "Días vencido"
    ∷ codes "Expiraba"
    ∷ []

abbrev pub expiring_columns : List Text
expiring_columns =
    codes "Dominio"
    ∷ codes "Tipo"
    ∷ codes "Origen"
    ∷ codes "Emisor"
    ∷ codes "Días restantes"
    ∷ codes "Vence"
    ∷ codes "Umbral"
    ∷ []

abbrev pub mismatch_columns : List Text
mismatch_columns =
    codes "Dominio"
    ∷ codes "Origen"
    ∷ codes "RDAP"
    ∷ codes "Registrador (YAML)"
    ∷ codes "Diferencia"
    ∷ []

module _ (layouts : Layouts) where
  abbrev pub expired_table : List Alert → Text
  expired_table expired =
      section_table (codes "Vencidos") (codes "#dc2626") expired_columns
        (render_expired_rows layouts expired)

  abbrev pub expiring_table : List Alert → Text
  expiring_table expiring =
      section_table (codes "Por vencer") (codes "#d97706") expiring_columns
        (render_expiring_rows layouts expiring)

  abbrev pub mismatch_table : List Alert → Text
  mismatch_table mismatch =
      section_table (codes "Inconsistencias RDAP vs registrador") (codes "#7c3aed") mismatch_columns
        (render_mismatch_rows layouts mismatch)

  -- The page, for the buckets of the alerts.
  abbrev pub html_page_parts : Buckets → Summary → Time → List Text
  html_page_parts b summary now =
      let status = email_status (length b.expired) (length b.expiring) (length b.mismatch) in
      (codes
          "<!DOCTYPE html><html><head><meta charset=\"UTF-8\"><meta name=\"viewport\" content=\"width=device-width, initial-scale=1\"></head>"
        ∷ codes
            "<body style=\"margin:0;padding:0;background:#f5f6f8;font-family:-apple-system,BlinkMacSystemFont,'Segoe UI',Roboto,Helvetica,Arial,sans-serif;color:#111827;\">"
        ∷ codes
            "<table role=\"presentation\" width=\"100%\" cellspacing=\"0\" cellpadding=\"0\" border=\"0\"><tr><td align=\"center\" style=\"padding:32px 12px;\">"
        ∷ codes
            "<table role=\"presentation\" width=\"720\" cellspacing=\"0\" cellpadding=\"0\" border=\"0\" style=\"max-width:720px;width:100%;background:#ffffff;border:1px solid #e5e7eb;border-radius:8px;overflow:hidden;\">"
        ∷ status_banner layouts status.0 status.1 now
        ∷ tldr_section b summary
        ∷ table_of expired_table b.expired
        ∷ table_of expiring_table b.expiring
        ∷ table_of mismatch_table b.mismatch
        ∷ divider
        ∷ section_header (codes "Estado general") (codes "#0f172a")
        ∷ inventory_kpis summary
        ∷ table_of_sources summary.by_source
        ∷ codes
            "<tr><td style=\"padding:18px 28px;background:#f9fafb;border-top:1px solid #e5e7eb;\">"
        ∷ codes "<p style=\"margin:0;color:#6b7280;font-size:11px;line-height:1.5;\">"
        ∷ codes "Reporte automático generado por auto-certs. No respondas a este correo.<br>"
        ∷ codes "Las alertas se disparan al cruzar los umbrales [30, 15, 7, 3] días y al vencer."
        ∷ codes "</p></td></tr>"
        ∷ codes "</table></td></tr></table>"
        ∷ codes "</body></html>"
        ∷ [])

  abbrev pub html_page : Buckets → Summary → Time → Text
  html_page b summary now = build (html_page_parts b summary now)

  -- `RenderHTML`
  unfoldable pub render_html : List Alert → Summary → Time → Text
  unfolding bucket_and_dedup escape_html tldr_lines render_expired_rows render_expiring_rows
      render_mismatch_rows
  render_html alerts summary now = html_page (bucket_and_dedup alerts) summary now
