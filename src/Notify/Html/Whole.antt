-- ===== src/Notify/Html/Whole.antt =====
-- The whole page opens as many tags as the sizes of what it shows say.
use mathlib.Core.List.{Mem, mem-cons, mem-cons_self, mem-cons_of_mem, not-mem-nil}
use mathlib.Core.List.Perm
use mathlib.Core.Logic.Or
use native.Mathlib.Decide.{ℕ_discrete}
use auto_cert.Base.{
  ℕ, zero, suc, ◌+◌, ◌*◌, ◌≡◌, refl, ap, ◌∙◌, List, [], ◌∷◌, ◌++◌, list_eq, nat_eq, arith, length,
  All,
}
use auto_cert.Base.Text.{Text, codes, format_nat}
use auto_cert.Base.Members.{collect, mem-keep}
use auto_cert.Model.{Alert}
use auto_cert.Time.{Time}
use auto_cert.Notify.Summary.{Summary, SourceStat}
use auto_cert.Notify.Bucket.{Buckets, bucket_and_dedup, is_expired, is_mismatch}
use auto_cert.Notify.Bucket.Shown.{bucket_and_dedup_shown}
use auto_cert.Notify.Render.{Layouts, email_status, level_of_mail}
use auto_cert.Notify.Html.Badges.{escape_html}
use auto_cert.Notify.Html.Blocks.{
  inventory_kpis, inventory_kpis_parts, source_heading, source_headings, source_row,
  source_row_parts, source_rows, totals_row, totals_row_parts, totals_of, total_of, source_table,
  source_table_parts,
}
use auto_cert.Notify.Html.{
  html_page, html_page_parts, render_html, expired_table, expiring_table, mismatch_table, table_of,
  table_of_sources, expired_columns, expiring_columns, mismatch_columns,
}
use auto_cert.Notify.Html.Rows.{render_expired_rows, render_expiring_rows, render_mismatch_rows}
use auto_cert.Notify.Html.Tags.{
  tags, tags-append, tags-build, tags-nil, tags-format_nat, tags-row_color, tags-source_badge,
  IsPlain, tags-render_rows,
}
use auto_cert.Notify.Html.Page.{
  filled, at_least_one, tags-accent, tags-status_banner, tags-tldr_section, tags-section_header,
  tags-kpi_cell_sub, tags-section_table,
}

tags-codes-color :
    (tags (codes "#0f172a") ≡ 0)
    × (tags (codes "#059669") ≡ 0)
    × (tags (codes "#dc2626") ≡ 0)
    × (tags (codes "#6b7280") ≡ 0)
unfolding tags
tags-codes-color = (refl, refl, refl, refl)

tags-inventory_kpis : (s : Summary) → tags (inventory_kpis s) ≡ 40
unfolding tags
tags-inventory_kpis s =
    tags-build (inventory_kpis_parts s)
    ∙ omega (
      arith,
      tags-kpi_cell_sub s.total (codes "Inventario")
          (codes "apex "
            ++ format_nat s.tally.apex
            ++ codes " · sub "
            ++ format_nat s.tally.subdomain)
          (codes "#0f172a") tags-codes-color.0,
      tags-kpi_cell_sub s.tally.healthy (codes "Sanos") (codes "sin alertas ni errores")
          (codes "#059669") tags-codes-color.1,
      tags-kpi_cell_sub s.tally.alerted (codes "Con alerta") (codes "≥ 1 alerta activa")
          (codes "#dc2626") tags-codes-color.2,
      tags-kpi_cell_sub s.tally.no_cert_data (codes "Sin cert") (codes "TLS check falló")
          (codes "#6b7280") tags-codes-color.3,
    )

tags-source_row : (i : ℕ) (ss : SourceStat) → tags (source_row i ss) ≡ 16
unfolding tags
tags-source_row i ss =
    tags-build (source_row_parts i ss)
    ∙ omega (
      arith,
      tags-row_color i,
      tags-source_badge ss.source,
      tags-format_nat ss.total,
      tags-format_nat ss.tally.apex,
      tags-format_nat ss.tally.subdomain,
      tags-format_nat ss.tally.healthy,
      tags-format_nat ss.tally.alerted,
      tags-format_nat ss.tally.no_cert_data,
    )

tags-source_rows :
    (i : ℕ) (stats : List SourceStat) → tags (source_rows i stats) ≡ 16 * length stats
tags-source_rows i [] = tags-nil
tags-source_rows i (ss ∷ stats) =
    tags-append (source_row i ss) (source_rows (suc i) stats)
    ∙ omega (arith, tags-source_row i ss, tags-source_rows (suc i) stats)

tags-totals_row : (stats : List SourceStat) → tags (totals_row stats) ≡ 14
unfolding tags
tags-totals_row stats =
    tags-build (totals_row_parts stats)
    ∙ omega (
      arith,
      tags-format_nat (total_of (λ ss. ss.total) stats),
      tags-format_nat (total_of (λ ss. ss.tally.apex) stats),
      tags-format_nat (total_of (λ ss. ss.tally.subdomain) stats),
      tags-format_nat (total_of (λ ss. ss.tally.healthy) stats),
      tags-format_nat (total_of (λ ss. ss.tally.alerted) stats),
      tags-format_nat (total_of (λ ss. ss.tally.no_cert_data) stats),
    )

-- The tags of the table of the sources, by their number.
abbrev pub sources_tags : ℕ → ℕ
sources_tags zero = 0
sources_tags (suc zero) = 52
sources_tags (suc (suc n)) = 82 + 16 * n

tags-source_headings : tags (collect source_heading source_headings) ≡ 12
unfolding tags escape_html
tags-source_headings = refl

tags-source_table :
    (stats : List SourceStat)
    → tags (source_table stats) ≡ 36 + 16 * length stats + tags (totals_of stats)
unfolding tags
tags-source_table stats =
    tags-build (source_table_parts stats)
    ∙ omega (arith, tags-source_headings, tags-source_rows 0 stats)

tags-table_of_sources :
    (stats : List SourceStat) → tags (table_of_sources stats) ≡ sources_tags (length stats)
tags-table_of_sources [] = tags-nil
tags-table_of_sources (s ∷ []) = tags-source_table (s ∷ []) ∙ omega (arith, tags-nil)
tags-table_of_sources (s ∷ u ∷ stats) =
    tags-source_table (s ∷ u ∷ stats) ∙ omega (arith, tags-totals_row (s ∷ u ∷ stats))

-- The tags of a table of alerts: none if it is empty, else those around it and those of its rows.
abbrev pub table_tags : ℕ → ℕ → ℕ → ℕ
table_tags around each zero = 0
table_tags around each (suc n) = around + each * suc n

tags-hex : (tags (codes "#d97706") ≡ 0) × (tags (codes "#7c3aed") ≡ 0)
unfolding tags
tags-hex = (refl, refl)

-- The tags of the page, by the sizes of the buckets and the number of sources.
abbrev pub page_tags : ℕ → ℕ → ℕ → ℕ → ℕ
page_tags expired expiring mismatch sources =
    98
    + 14 * at_least_one (filled expired + (filled expiring + filled mismatch))
    + table_tags 36 20 expired
    + table_tags 38 22 expiring
    + table_tags 34 14 mismatch
    + sources_tags sources

IsPlain-prop : (a : Alert) → IsProp (IsPlain a)
IsPlain-prop a = hlevel ℕ_discrete

IsPlain-mem : (alerts : List Alert) {a : Alert} → All IsPlain alerts → Mem a alerts → IsPlain a
IsPlain-mem [] h m = absurd (not-mem-nil m)
IsPlain-mem (k ∷ alerts) {a} h m =
    Or.elim (IsPlain-prop a) (mem-cons.0 m) (λ e. ap (λ (b : Alert). tags b.kind) e ∙ h.0)
      (IsPlain-mem alerts h.1)

IsPlain-of_mem :
    (alerts : List Alert) → ((a : Alert) → Mem a alerts → IsPlain a) → All IsPlain alerts
IsPlain-of_mem [] h = tt
IsPlain-of_mem (k ∷ alerts) h =
    (h k mem-cons_self, IsPlain-of_mem alerts (λ a m. h a (mem-cons_of_mem k m)))

module _ (layouts : Layouts) where
  tags-expired_table :
      (alerts : List Alert)
      → All IsPlain alerts
      → tags (table_of (expired_table layouts) alerts) ≡ table_tags 36 20 (length alerts)
  tags-expired_table [] h = tags-nil
  tags-expired_table (a ∷ alerts) h =
      tags-section_table (codes "Vencidos") (codes "#dc2626") expired_columns
        (render_expired_rows layouts (a ∷ alerts)) tags-codes-color.2
      ∙ omega (arith, (tags-render_rows layouts (a ∷ alerts) h).0)

  tags-expiring_table :
      (alerts : List Alert)
      → All IsPlain alerts
      → tags (table_of (expiring_table layouts) alerts) ≡ table_tags 38 22 (length alerts)
  tags-expiring_table [] h = tags-nil
  tags-expiring_table (a ∷ alerts) h =
      tags-section_table (codes "Por vencer") (codes "#d97706") expiring_columns
        (render_expiring_rows layouts (a ∷ alerts)) tags-hex.0
      ∙ omega (arith, (tags-render_rows layouts (a ∷ alerts) h).1)

  tags-mismatch_table :
      (alerts : List Alert)
      → All IsPlain alerts
      → tags (table_of (mismatch_table layouts) alerts) ≡ table_tags 34 14 (length alerts)
  tags-mismatch_table [] h = tags-nil
  tags-mismatch_table (a ∷ alerts) h =
      tags-section_table (codes "Inconsistencias RDAP vs registrador") (codes "#7c3aed")
        mismatch_columns (render_mismatch_rows layouts (a ∷ alerts)) tags-hex.1
      ∙ omega (arith, (tags-render_rows layouts (a ∷ alerts) h).2)

  abbrev status : Buckets → Text × Text
  status b = email_status (length b.expired) (length b.expiring) (length b.mismatch)

  tags-html_page :
      (b : Buckets) (s : Summary) (now : Time)
      → All IsPlain b.expired
      → All IsPlain b.expiring
      → All IsPlain b.mismatch
      → tags (html_page layouts b s now)
        ≡ page_tags (length b.expired) (length b.expiring) (length b.mismatch) (length s.by_source)
  unfolding tags
  tags-html_page b s now e x m =
      tags-build (html_page_parts layouts b s now)
      ∙ omega (
        arith,
        tags-status_banner layouts (status b).0 (status b).1 now (
            tags-accent (level_of_mail (length b.expired) (length b.expiring) (length b.mismatch))),
        tags-tldr_section b s,
        tags-expired_table b.expired e,
        tags-expiring_table b.expiring x,
        tags-mismatch_table b.mismatch m,
        tags-section_header (codes "Estado general") (codes "#0f172a") tags-codes-color.0,
        tags-inventory_kpis s,
        tags-table_of_sources s.by_source,
      )

  -- No text in the mail can add a tag to its page: whatever the domains, sources and issuers of the
  -- alerts and the names of the sources are, and however dates are written, the page opens as many
  -- tags as the sizes of the three buckets and the number of sources say, for alerts whose kinds
  -- open none.
  pub render_html-tags :
      (alerts : List Alert) (s : Summary) (now : Time)
      → All IsPlain alerts
      → let b = bucket_and_dedup alerts in
        tags (render_html layouts alerts s now)
        ≡ page_tags (length b.expired) (length b.expiring) (length b.mismatch) (length s.by_source)
  unfolding render_html
  render_html-tags alerts s now plain =
      let (expired, mismatch, expiring) = bucket_and_dedup_shown alerts in
      let b = bucket_and_dedup alerts in
      tags-html_page b s now
        (IsPlain-of_mem b.expired (λ a m.
          IsPlain-mem alerts plain (mem-keep is_expired alerts (Perm.subset expired a m)).0))
        (IsPlain-of_mem b.expiring (λ a m. IsPlain-mem alerts plain (expiring.from a m).0))
        (IsPlain-of_mem b.mismatch (λ a m.
          IsPlain-mem alerts plain (mem-keep is_mismatch alerts (Perm.subset mismatch a m)).0))
