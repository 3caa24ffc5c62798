-- ===== src/Notify/Html/Rows.antt =====
-- internal/notify/html.go: the rows of the three tables of alerts.
use auto_cert.Base.{ℕ, suc, List, [], ◌∷◌, ◌++◌}
use auto_cert.Base.Int.{negate}
use auto_cert.Base.Text.{Text, codes, format_int}
use auto_cert.Model.{Alert}
use auto_cert.Notify.Render.{build, Layouts, format_signed}
use auto_cert.Notify.Html.Badges.{escape_html, row_color, kind_badge, source_badge, issuer_badge}

-- A loop that writes a row for each alert, from an index on.
abbrev pub rows_from : (ℕ → Alert → Text) → ℕ → List Alert → Text
rows_from row i [] = []
rows_from row i (a ∷ alerts) = row i a ++ rows_from row (suc i) alerts

module _ (layouts : Layouts) where
  abbrev pub expired_row_parts : ℕ → Alert → List Text
  expired_row_parts i a =
      (codes "<tr style=\"background:"
        ∷ row_color i
        ∷ codes ";\">"
        ∷ codes
            "<td style=\"padding:10px;border-bottom:1px solid #f1f5f9;color:#111827;font-family:ui-monospace,Menlo,Consolas,monospace;font-size:12.5px;\">"
        ∷ escape_html a.domain
        ∷ codes "</td>"
        ∷ codes "<td style=\"padding:10px;border-bottom:1px solid #f1f5f9;\">"
        ∷ kind_badge a.kind
        ∷ codes "</td>"
        ∷ codes "<td style=\"padding:10px;border-bottom:1px solid #f1f5f9;\">"
        ∷ source_badge a.source
        ∷ codes "</td>"
        ∷ codes "<td style=\"padding:10px;border-bottom:1px solid #f1f5f9;\">"
        ∷ issuer_badge a.issuer
        ∷ codes "</td>"
        ∷ codes
            "<td style=\"padding:10px;border-bottom:1px solid #f1f5f9;color:#dc2626;font-weight:600;\">"
        ∷ format_int (negate a.days_left)
        ∷ codes "</td>"
        ∷ codes "<td style=\"padding:10px;border-bottom:1px solid #f1f5f9;color:#6b7280;\">"
        ∷ escape_html (layouts.date a.expires_at)
        ∷ codes "</td>"
        ∷ codes "</tr>"
        ∷ [])

  abbrev pub expired_row : ℕ → Alert → Text
  expired_row i a = build (expired_row_parts i a)

  -- `renderExpiredRows`
  unfoldable pub render_expired_rows : List Alert → Text
  unfolding escape_html format_int
  render_expired_rows alerts = rows_from expired_row 0 alerts

  abbrev pub mismatch_row_parts : ℕ → Alert → List Text
  mismatch_row_parts i a =
      (codes "<tr style=\"background:"
        ∷ row_color i
        ∷ codes ";\">"
        ∷ codes
            "<td style=\"padding:10px;border-bottom:1px solid #f1f5f9;color:#111827;font-family:ui-monospace,Menlo,Consolas,monospace;font-size:12.5px;\">"
        ∷ escape_html a.domain
        ∷ codes "</td>"
        ∷ codes "<td style=\"padding:10px;border-bottom:1px solid #f1f5f9;\">"
        ∷ source_badge a.source
        ∷ codes "</td>"
        ∷ codes "<td style=\"padding:10px;border-bottom:1px solid #f1f5f9;color:#6b7280;\">"
        ∷ escape_html (layouts.date a.expires_at)
        ∷ codes "</td>"
        ∷ codes "<td style=\"padding:10px;border-bottom:1px solid #f1f5f9;color:#6b7280;\">"
        ∷ escape_html (layouts.date a.fallback_expected)
        ∷ codes "</td>"
        ∷ codes
            "<td style=\"padding:10px;border-bottom:1px solid #f1f5f9;color:#7c3aed;font-weight:600;\">"
        ∷ format_signed a.days_left
        ∷ codes " d</td>"
        ∷ codes "</tr>"
        ∷ [])

  abbrev pub mismatch_row : ℕ → Alert → Text
  mismatch_row i a = build (mismatch_row_parts i a)

  -- `renderMismatchRows`
  unfoldable pub render_mismatch_rows : List Alert → Text
  unfolding escape_html format_signed
  render_mismatch_rows alerts = rows_from mismatch_row 0 alerts

  abbrev pub expiring_row_parts : ℕ → Alert → List Text
  expiring_row_parts i a =
      (codes "<tr style=\"background:"
        ∷ row_color i
        ∷ codes ";\">"
        ∷ codes
            "<td style=\"padding:10px;border-bottom:1px solid #f1f5f9;color:#111827;font-family:ui-monospace,Menlo,Consolas,monospace;font-size:12.5px;\">"
        ∷ escape_html a.domain
        ∷ codes "</td>"
        ∷ codes "<td style=\"padding:10px;border-bottom:1px solid #f1f5f9;\">"
        ∷ kind_badge a.kind
        ∷ codes "</td>"
        ∷ codes "<td style=\"padding:10px;border-bottom:1px solid #f1f5f9;\">"
        ∷ source_badge a.source
        ∷ codes "</td>"
        ∷ codes "<td style=\"padding:10px;border-bottom:1px solid #f1f5f9;\">"
        ∷ issuer_badge a.issuer
        ∷ codes "</td>"
        ∷ codes
            "<td style=\"padding:10px;border-bottom:1px solid #f1f5f9;color:#d97706;font-weight:600;\">"
        ∷ format_int a.days_left
        ∷ codes "</td>"
        ∷ codes "<td style=\"padding:10px;border-bottom:1px solid #f1f5f9;color:#6b7280;\">"
        ∷ escape_html (layouts.date a.expires_at)
        ∷ codes "</td>"
        ∷ codes "<td style=\"padding:10px;border-bottom:1px solid #f1f5f9;color:#6b7280;\">≤ "
        ∷ format_int a.threshold
        ∷ codes " días</td>"
        ∷ codes "</tr>"
        ∷ [])

  abbrev pub expiring_row : ℕ → Alert → Text
  expiring_row i a = build (expiring_row_parts i a)

  -- `renderExpiringRows`
  unfoldable pub render_expiring_rows : List Alert → Text
  unfolding escape_html format_int
  render_expiring_rows alerts = rows_from expiring_row 0 alerts
