-- ===== src/Notify/Html/Page.antt =====
-- The number of tags of the page, by the sizes of what it shows.
use auto_cert.Base.{
  length-append, All-append, ℕ, zero, suc, ◌+◌, ◌*◌, ◌≡◌, refl, ap, ◌∙◌, List, [], ◌∷◌, ◌++◌,
  list_eq, nat_eq, arith, length, All,
}
use auto_cert.Base.Text.{Text}
use auto_cert.Base.Members.{collect}
use auto_cert.Model.{Alert}
use auto_cert.Time.{Time, utc}
use auto_cert.Notify.Summary.{Summary}
use auto_cert.Notify.Bucket.{Buckets}
use auto_cert.Notify.Render.{
  Layouts, Level, critical, warning, info, fine, accent, first_domains, or_line, line_of,
}
use auto_cert.Notify.Html.Blocks.{
  status_banner, status_banner_parts, expired_bullet, expired_bullet_parts, expiring_bullet,
  expiring_bullet_parts, mismatch_bullet, mismatch_bullet_parts, quiet_bullet, quiet_bullet_parts,
  tldr_lines, bullet_row, bullet_row_parts, tldr_section, tldr_section_parts, section_header,
  section_header_parts, kpi_cell_sub, kpi_cell_sub_parts, column_heading, column_heading_parts,
  section_table, section_table_parts,
}
use auto_cert.Notify.Html.Tags.{
  tags, tags-append, tags-build, tags-nil, tags-escape_html, tags-format_nat,
}

pub tags-accent : (l : Level) → tags (accent l) ≡ 0
unfolding tags
tags-accent critical = refl
tags-accent warning = refl
tags-accent info = refl
tags-accent fine = refl

pub tags-status_banner :
    (layouts : Layouts) (color label : Text) (now : Time)
    → tags color ≡ 0
    → tags (status_banner layouts color label now) ≡ 10
unfolding tags
tags-status_banner layouts color label now h =
    tags-build (status_banner_parts layouts color label now)
    ∙ omega (arith, h, tags-escape_html label, tags-escape_html (layouts.long_stamp (utc now)))

-- Each line of the summary holds one highlighted number.
tags-expired_bullet : (alerts : List Alert) (n : ℕ) → tags (expired_bullet alerts n) ≡ 2
unfolding tags
tags-expired_bullet alerts n =
    tags-build (expired_bullet_parts alerts n)
    ∙ omega (arith, tags-format_nat n, tags-escape_html (first_domains alerts 2))

tags-expiring_bullet : (alerts : List Alert) (n : ℕ) → tags (expiring_bullet alerts n) ≡ 2
unfolding tags
tags-expiring_bullet alerts n =
    tags-build (expiring_bullet_parts alerts n)
    ∙ omega (arith, tags-format_nat n, tags-escape_html (first_domains alerts 2))

tags-mismatch_bullet : (n : ℕ) → tags (mismatch_bullet n) ≡ 2
unfolding tags
tags-mismatch_bullet n = tags-build (mismatch_bullet_parts n) ∙ omega (arith, tags-format_nat n)

tags-quiet_bullet : (s : Summary) → tags (quiet_bullet s) ≡ 2
unfolding tags
tags-quiet_bullet s =
    tags-build (quiet_bullet_parts s)
    ∙ omega (arith, tags-format_nat s.tally.healthy, tags-format_nat s.total)

tags-bullet_row : (line : Text) → tags (bullet_row line) ≡ 12 + tags line
unfolding tags
tags-bullet_row line = tags-build (bullet_row_parts line) ∙ omega arith

abbrev HasTwo : Text → Type 0
HasTwo line = tags line ≡ 2

tags-bullet_rows :
    (lines : List Text) → All HasTwo lines → tags (collect bullet_row lines) ≡ 14 * length lines
tags-bullet_rows [] h = tags-nil
tags-bullet_rows (l ∷ lines) h =
    tags-append (bullet_row l) (collect bullet_row lines)
    ∙ omega (arith, tags-bullet_row l, h.0, tags-bullet_rows lines h.1)

-- The number of lines of the summary, by the sizes of the buckets.
abbrev pub filled : ℕ → ℕ
filled zero = 0
filled (suc n) = 1

abbrev pub at_least_one : ℕ → ℕ
at_least_one zero = 1
at_least_one (suc n) = suc n

line_of-tags :
    (line : ℕ → Text) (alerts : List Alert)
    → ((n : ℕ) → HasTwo (line n))
    → All HasTwo (line_of line alerts) × (length (line_of line alerts) ≡ filled (length alerts))
line_of-tags line [] h = (tt, refl)
line_of-tags line (a ∷ alerts) h = ((h (length (a ∷ alerts)), tt), refl)

or_line-tags :
    (line : Text) (lines : List Text)
    → HasTwo line
    → All HasTwo lines
    → All HasTwo (or_line line lines) × (length (or_line line lines) ≡ at_least_one (length lines))
or_line-tags line [] h k = ((h, tt), refl)
or_line-tags line (l ∷ lines) h k = (k, refl)

tldr_lines-tags :
    (b : Buckets) (s : Summary)
    → All HasTwo (tldr_lines b s)
      × (length (tldr_lines b s)
          ≡ at_least_one (
              filled (length b.expired)
              + (filled (length b.expiring) + filled (length b.mismatch))))
unfolding tldr_lines
tldr_lines-tags b s =
    let e = line_of-tags (expired_bullet b.expired) b.expired (tags-expired_bullet b.expired) in
    let x =
      line_of-tags (expiring_bullet b.expiring) b.expiring (tags-expiring_bullet b.expiring) in
    let m = line_of-tags mismatch_bullet b.mismatch tags-mismatch_bullet in
    let later =
      line_of (expiring_bullet b.expiring) b.expiring ++ line_of mismatch_bullet b.mismatch in
    let all = line_of (expired_bullet b.expired) b.expired ++ later in
    let (two, len) = or_line-tags (quiet_bullet s) all (tags-quiet_bullet s) (
      All-append HasTwo (line_of (expired_bullet b.expired) b.expired) later e.0 (
        All-append HasTwo (line_of (expiring_bullet b.expiring) b.expiring)
          (line_of mismatch_bullet b.mismatch) x.0 m.0)) in
    (
      two,
      len
          ∙ ap at_least_one (
              omega (
                arith,
                length-append (line_of (expired_bullet b.expired) b.expired) later,
                length-append (line_of (expiring_bullet b.expiring) b.expiring)
                    (line_of mismatch_bullet b.mismatch),
                e.1,
                x.1,
                m.1,
              )),
    )

pub tags-tldr_section :
    (b : Buckets) (s : Summary)
    → tags (tldr_section b s)
      ≡ 6
        + 14
          * at_least_one (
              filled (length b.expired) + (filled (length b.expiring) + filled (length b.mismatch)))
unfolding tags
tags-tldr_section b s =
    let (two, len) = tldr_lines-tags b s in
    tags-build (tldr_section_parts b s) ∙ omega (arith, tags-bullet_rows (tldr_lines b s) two, len)

pub tags-section_header :
    (title color : Text) → tags color ≡ 0 → tags (section_header title color) ≡ 12
unfolding tags
tags-section_header title color h =
    tags-build (section_header_parts title color) ∙ omega (arith, h, tags-escape_html title)

pub tags-kpi_cell_sub :
    (n : ℕ) (label subtitle color : Text)
    → tags color ≡ 0
    → tags (kpi_cell_sub n label subtitle color) ≡ 8
unfolding tags
tags-kpi_cell_sub n label subtitle color h =
    tags-build (kpi_cell_sub_parts n label subtitle color)
    ∙ omega (arith, h, tags-format_nat n, tags-escape_html label, tags-escape_html subtitle)

tags-column_headings :
    (titles : List Text) → tags (collect column_heading titles) ≡ 2 * length titles
unfolding tags
tags-column_headings [] = refl
tags-column_headings (t ∷ titles) =
    tags-append (column_heading t) (collect column_heading titles)
    ∙ omega (
      arith,
      tags-build (column_heading_parts t),
      tags-escape_html t,
      tags-column_headings titles,
    )

pub tags-section_table :
    (title color : Text) (titles : List Text) (rows : Text)
    → tags color ≡ 0
    → tags (section_table title color titles rows) ≡ 24 + 2 * length titles + tags rows
unfolding tags
tags-section_table title color titles rows h =
    tags-build (section_table_parts title color titles rows)
    ∙ omega (arith, h, tags-escape_html title, tags-column_headings titles)
