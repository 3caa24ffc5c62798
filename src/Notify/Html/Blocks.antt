-- ===== src/Notify/Html/Blocks.antt =====
-- internal/notify/html.go: the blocks of the page around the rows.
use auto_cert.Base.{ℕ, suc, ◌+◌, List, [], ◌∷◌, ◌++◌}
use auto_cert.Base.Text.{Text, codes, format_nat}
use auto_cert.Base.Members.{collect}
use auto_cert.Model.{Alert}
use auto_cert.Time.{Time, utc}
use auto_cert.Notify.Summary.{Summary, SourceStat}
use auto_cert.Notify.Bucket.{Buckets}
use auto_cert.Notify.Render.{build, Layouts, first_domains, or_line, line_of}
use auto_cert.Notify.Html.Badges.{escape_html, row_color, source_badge}

-- `statusBanner`
abbrev pub status_banner_parts : Layouts → Text → Text → Time → List Text
status_banner_parts layouts accent label now =
    (codes "<tr><td style=\"background:"
      ∷ accent
      ∷ codes ";padding:28px;\">"
      ∷ codes
          "<div style=\"color:rgba(255,255,255,0.85);font-size:11px;font-weight:700;text-transform:uppercase;letter-spacing:0.1em;\">"
      ∷ escape_html label
      ∷ codes "</div>"
      ∷ codes
          "<h1 style=\"margin:8px 0 0;color:#ffffff;font-size:22px;font-weight:600;letter-spacing:-0.01em;\">Reporte auto-certs</h1>"
      ∷ codes "<div style=\"margin-top:6px;color:rgba(255,255,255,0.8);font-size:13px;\">"
      ∷ escape_html (layouts.long_stamp (utc now))
      ∷ codes " UTC</div>"
      ∷ codes "</td></tr>"
      ∷ [])

abbrev pub status_banner : Layouts → Text → Text → Time → Text
status_banner layouts accent label now = build (status_banner_parts layouts accent label now)

abbrev pub expired_bullet_parts : List Alert → ℕ → List Text
expired_bullet_parts expired n =
    (codes "<strong style=\"color:#dc2626;\">"
      ∷ format_nat n
      ∷ codes " vencido(s)</strong> — acción inmediata: "
      ∷ escape_html (first_domains expired 2)
      ∷ [])

abbrev pub expired_bullet : List Alert → ℕ → Text
expired_bullet expired n = build (expired_bullet_parts expired n)

abbrev pub expiring_bullet_parts : List Alert → ℕ → List Text
expiring_bullet_parts expiring n =
    (codes "<strong style=\"color:#d97706;\">"
      ∷ format_nat n
      ∷ codes " por vencer</strong> en ≤30 días: "
      ∷ escape_html (first_domains expiring 2)
      ∷ [])

abbrev pub expiring_bullet : List Alert → ℕ → Text
expiring_bullet expiring n = build (expiring_bullet_parts expiring n)

abbrev pub mismatch_bullet_parts : ℕ → List Text
mismatch_bullet_parts n =
    (codes "<strong style=\"color:#7c3aed;\">"
      ∷ format_nat n
      ∷ codes " inconsistencia(s)</strong> entre RDAP y registrador (revisar YAML)."
      ∷ [])

abbrev pub mismatch_bullet : ℕ → Text
mismatch_bullet n = build (mismatch_bullet_parts n)

abbrev pub quiet_bullet_parts : Summary → List Text
quiet_bullet_parts summary =
    (codes "Sin alertas nuevas. <strong style=\"color:#059669;\">"
      ∷ format_nat summary.tally.healthy
      ∷ codes " de "
      ∷ format_nat summary.total
      ∷ codes "</strong> dominios sanos."
      ∷ [])

abbrev pub quiet_bullet : Summary → Text
quiet_bullet summary = build (quiet_bullet_parts summary)

-- `tldrLines`
unfoldable pub tldr_lines : Buckets → Summary → List Text
unfolding escape_html first_domains format_nat
tldr_lines b summary = or_line (quiet_bullet summary) (
    line_of (expired_bullet b.expired) b.expired
    ++ (line_of (expiring_bullet b.expiring) b.expiring ++ line_of mismatch_bullet b.mismatch))

abbrev pub bullet_row_parts : Text → List Text
bullet_row_parts line =
    (codes "<tr><td style=\"padding:4px 0;\">"
      ∷ codes "<table role=\"presentation\" cellspacing=\"0\" cellpadding=\"0\" border=\"0\"><tr>"
      ∷ codes
          "<td valign=\"top\" style=\"padding-right:10px;color:#9ca3af;font-size:14px;line-height:1.5;\">•</td>"
      ∷ codes "<td style=\"font-size:14px;line-height:1.5;color:#111827;\">"
      ∷ line
      ∷ codes "</td>"
      ∷ codes "</tr></table></td></tr>"
      ∷ [])

abbrev pub bullet_row : Text → Text
bullet_row line = build (bullet_row_parts line)

-- `tldrSection`
abbrev pub tldr_section_parts : Buckets → Summary → List Text
tldr_section_parts b summary =
    (codes
        "<tr><td style=\"padding:22px 28px 18px;background:#fafbfc;border-bottom:1px solid #e5e7eb;\">"
      ∷ codes
          "<table role=\"presentation\" width=\"100%\" cellspacing=\"0\" cellpadding=\"0\" border=\"0\">"
      ∷ collect bullet_row (tldr_lines b summary)
      ∷ codes "</table></td></tr>"
      ∷ [])

abbrev pub tldr_section : Buckets → Summary → Text
tldr_section b summary = build (tldr_section_parts b summary)

-- `divider`
abbrev pub divider : Text
divider =
    codes
      "<tr><td style=\"padding:28px 28px 0;\"><div style=\"height:1px;background:#e5e7eb;line-height:1px;\">&nbsp;</div></td></tr>"

-- `sectionHeader`
abbrev pub section_header_parts : Text → Text → List Text
section_header_parts title accent =
    (codes
        "<tr><td style=\"padding:20px 28px 8px;\"><table role=\"presentation\" width=\"100%\" cellspacing=\"0\" cellpadding=\"0\" border=\"0\"><tr><td style=\"border-left:3px solid "
      ∷ accent
      ∷ codes
          ";padding-left:10px;\"><h2 style=\"margin:0;font-size:13px;font-weight:600;color:#6b7280;text-transform:uppercase;letter-spacing:0.08em;\">"
      ∷ escape_html title
      ∷ codes "</h2></td></tr></table></td></tr>"
      ∷ [])

abbrev pub section_header : Text → Text → Text
section_header title accent = build (section_header_parts title accent)

-- `kpiCellSub`
abbrev pub kpi_cell_sub_parts : ℕ → Text → Text → Text → List Text
kpi_cell_sub_parts count label subtitle accent =
    (codes
        "<td align=\"center\" style=\"padding:18px 10px;border-right:1px solid #e5e7eb;width:25%;\"><div style=\"font-size:26px;font-weight:600;color:"
      ∷ accent
      ∷ codes ";line-height:1;\">"
      ∷ format_nat count
      ∷ codes
          "</div><div style=\"margin-top:6px;font-size:11px;color:#6b7280;text-transform:uppercase;letter-spacing:0.05em;font-weight:600;\">"
      ∷ escape_html label
      ∷ codes "</div><div style=\"margin-top:3px;font-size:10.5px;color:#9ca3af;\">"
      ∷ escape_html subtitle
      ∷ codes "</div></td>"
      ∷ [])

abbrev pub kpi_cell_sub : ℕ → Text → Text → Text → Text
kpi_cell_sub count label subtitle accent = build (kpi_cell_sub_parts count label subtitle accent)

-- `inventoryKPIs`
abbrev pub inventory_kpis_parts : Summary → List Text
inventory_kpis_parts summary =
    (codes "<tr><td style=\"padding:8px 28px 0;\">"
      ∷ codes
          "<table role=\"presentation\" width=\"100%\" cellspacing=\"0\" cellpadding=\"0\" border=\"0\"><tr>"
      ∷ kpi_cell_sub summary.total (codes "Inventario")
          (codes "apex "
            ++ format_nat summary.tally.apex
            ++ codes " · sub "
            ++ format_nat summary.tally.subdomain)
          (codes "#0f172a")
      ∷ kpi_cell_sub summary.tally.healthy (codes "Sanos") (codes "sin alertas ni errores")
          (codes "#059669")
      ∷ kpi_cell_sub summary.tally.alerted (codes "Con alerta") (codes "≥ 1 alerta activa")
          (codes "#dc2626")
      ∷ kpi_cell_sub summary.tally.no_cert_data (codes "Sin cert") (codes "TLS check falló")
          (codes "#6b7280")
      ∷ codes "</tr></table></td></tr>"
      ∷ [])

abbrev pub inventory_kpis : Summary → Text
inventory_kpis summary = build (inventory_kpis_parts summary)

abbrev pub source_heading_parts : Text → List Text
source_heading_parts title =
    (codes
        "<th align=\"left\" style=\"padding:8px 10px;border-bottom:1px solid #e5e7eb;font-size:11px;font-weight:600;color:#6b7280;text-transform:uppercase;letter-spacing:0.05em;\">"
      ∷ escape_html title
      ∷ codes "</th>"
      ∷ [])

abbrev pub source_heading : Text → Text
source_heading title = build (source_heading_parts title)

abbrev pub source_headings : List Text
source_headings =
    codes "Origen"
    ∷ codes "Total"
    ∷ codes "Apex/Sub"
    ∷ codes "Sanos"
    ∷ codes "Con alerta"
    ∷ codes "Sin cert"
    ∷ []

abbrev pub source_row_parts : ℕ → SourceStat → List Text
source_row_parts i ss =
    (codes "<tr style=\"background:"
      ∷ row_color i
      ∷ codes ";\">"
      ∷ codes "<td style=\"padding:9px 10px;border-bottom:1px solid #f1f5f9;\">"
      ∷ source_badge ss.source
      ∷ codes "</td>"
      ∷ codes
          "<td style=\"padding:9px 10px;border-bottom:1px solid #f1f5f9;color:#111827;font-weight:600;\">"
      ∷ format_nat ss.total
      ∷ codes "</td>"
      ∷ codes "<td style=\"padding:9px 10px;border-bottom:1px solid #f1f5f9;color:#6b7280;\">"
      ∷ format_nat ss.tally.apex
      ∷ codes " / "
      ∷ format_nat ss.tally.subdomain
      ∷ codes "</td>"
      ∷ codes
          "<td style=\"padding:9px 10px;border-bottom:1px solid #f1f5f9;color:#059669;font-weight:600;\">"
      ∷ format_nat ss.tally.healthy
      ∷ codes "</td>"
      ∷ codes
          "<td style=\"padding:9px 10px;border-bottom:1px solid #f1f5f9;color:#dc2626;font-weight:600;\">"
      ∷ format_nat ss.tally.alerted
      ∷ codes "</td>"
      ∷ codes "<td style=\"padding:9px 10px;border-bottom:1px solid #f1f5f9;color:#6b7280;\">"
      ∷ format_nat ss.tally.no_cert_data
      ∷ codes "</td>"
      ∷ codes "</tr>"
      ∷ [])

abbrev pub source_row : ℕ → SourceStat → Text
source_row i ss = build (source_row_parts i ss)

abbrev pub source_rows : ℕ → List SourceStat → Text
source_rows i [] = []
source_rows i (ss ∷ stats) = source_row i ss ++ source_rows (suc i) stats

-- A sum that the loop over the sources keeps.
abbrev pub total_of : (SourceStat → ℕ) → List SourceStat → ℕ
total_of f [] = 0
total_of f (ss ∷ stats) = f ss + total_of f stats

abbrev pub totals_row_parts : List SourceStat → List Text
totals_row_parts stats =
    (codes "<tr style=\"background:#f9fafb;\">"
      ∷ codes
          "<td style=\"padding:10px;border-top:2px solid #e5e7eb;font-size:11px;font-weight:700;color:#111827;text-transform:uppercase;letter-spacing:0.05em;\">Total</td>"
      ∷ codes
          "<td style=\"padding:10px;border-top:2px solid #e5e7eb;color:#111827;font-weight:700;\">"
      ∷ format_nat (total_of (λ ss. ss.total) stats)
      ∷ codes "</td>"
      ∷ codes
          "<td style=\"padding:10px;border-top:2px solid #e5e7eb;color:#111827;font-weight:700;\">"
      ∷ format_nat (total_of (λ ss. ss.tally.apex) stats)
      ∷ codes " / "
      ∷ format_nat (total_of (λ ss. ss.tally.subdomain) stats)
      ∷ codes "</td>"
      ∷ codes
          "<td style=\"padding:10px;border-top:2px solid #e5e7eb;color:#059669;font-weight:700;\">"
      ∷ format_nat (total_of (λ ss. ss.tally.healthy) stats)
      ∷ codes "</td>"
      ∷ codes
          "<td style=\"padding:10px;border-top:2px solid #e5e7eb;color:#dc2626;font-weight:700;\">"
      ∷ format_nat (total_of (λ ss. ss.tally.alerted) stats)
      ∷ codes "</td>"
      ∷ codes
          "<td style=\"padding:10px;border-top:2px solid #e5e7eb;color:#111827;font-weight:700;\">"
      ∷ format_nat (total_of (λ ss. ss.tally.no_cert_data) stats)
      ∷ codes "</td>"
      ∷ codes "</tr>"
      ∷ [])

abbrev pub totals_row : List SourceStat → Text
totals_row stats = build (totals_row_parts stats)

-- The row of the totals, if there is more than one source.
abbrev pub totals_of : List SourceStat → Text
totals_of [] = []
totals_of (ss ∷ []) = []
totals_of (ss ∷ other ∷ stats) = totals_row (ss ∷ other ∷ stats)

-- `sourceTable`
abbrev pub source_table_parts : List SourceStat → List Text
source_table_parts stats =
    (codes "<tr><td style=\"padding:18px 28px 8px;\">"
      ∷ codes
          "<table role=\"presentation\" width=\"100%\" cellspacing=\"0\" cellpadding=\"0\" border=\"0\"><tr>"
      ∷ codes "<td style=\"border-left:3px solid #6b7280;padding-left:10px;\">"
      ∷ codes
          "<h3 style=\"margin:0;font-size:12px;font-weight:600;color:#6b7280;text-transform:uppercase;letter-spacing:0.06em;\">Cobertura por origen</h3>"
      ∷ codes "</td></tr></table></td></tr>"
      ∷ codes "<tr><td style=\"padding:6px 28px 8px;\">"
      ∷ codes
          "<table role=\"presentation\" width=\"100%\" cellspacing=\"0\" cellpadding=\"0\" border=\"0\" style=\"border-collapse:collapse;font-size:13px;\">"
      ∷ codes "<thead><tr>"
      ∷ collect source_heading source_headings
      ∷ codes "</tr></thead><tbody>"
      ∷ source_rows 0 stats
      ∷ totals_of stats
      ∷ codes "</tbody></table></td></tr>"
      ∷ [])

abbrev pub source_table : List SourceStat → Text
source_table stats = build (source_table_parts stats)

abbrev pub column_heading_parts : Text → List Text
column_heading_parts title =
    (codes
        "<th align=\"left\" style=\"padding:8px 10px;border-bottom:1px solid #e5e7eb;font-size:11px;font-weight:600;color:#6b7280;text-transform:uppercase;letter-spacing:0.05em;\">"
      ∷ escape_html title
      ∷ codes "</th>"
      ∷ [])

abbrev pub column_heading : Text → Text
column_heading title = build (column_heading_parts title)

-- `sectionTable`
abbrev pub section_table_parts : Text → Text → List Text → Text → List Text
section_table_parts title accent columns rows_html =
    (codes "<tr><td style=\"padding:24px 28px 8px;\">"
      ∷ codes
          "<table role=\"presentation\" width=\"100%\" cellspacing=\"0\" cellpadding=\"0\" border=\"0\"><tr><td style=\"border-left:3px solid "
      ∷ accent
      ∷ codes
          ";padding-left:10px;\"><h2 style=\"margin:0;font-size:15px;font-weight:600;color:#111827;\">"
      ∷ escape_html title
      ∷ codes "</h2></td></tr></table>"
      ∷ codes "</td></tr>"
      ∷ codes "<tr><td style=\"padding:8px 28px 4px;\">"
      ∷ codes
          "<table role=\"presentation\" width=\"100%\" cellspacing=\"0\" cellpadding=\"0\" border=\"0\" style=\"border-collapse:collapse;font-size:13px;\">"
      ∷ codes "<thead><tr>"
      ∷ collect column_heading columns
      ∷ codes "</tr></thead><tbody>"
      ∷ rows_html
      ∷ codes "</tbody></table></td></tr>"
      ∷ [])

abbrev pub section_table : Text → Text → List Text → Text → Text
section_table title accent columns rows_html =
    build (section_table_parts title accent columns rows_html)
