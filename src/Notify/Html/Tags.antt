-- ===== src/Notify/Html/Tags.antt =====
-- The tags of the page are those of its templates: nothing that an alert, a certificate or a source
-- carries can add one.
use auto_cert.Base.Text.Laws.{contains-format_nat_high}
use auto_cert.Base.{
  ℕ, suc, ◌+◌, ◌*◌, ◌≡◌, refl, ◌∙◌, false, List, [], ◌∷◌, ◌++◌, list_eq, nat_eq, arith,
  if◌then◌else◌, ◌==◌, length, All,
}
use auto_cert.Base.Int.{ℤ, pos, negsuc, negate}
use auto_cert.Base.Text.{contains, Text, format_nat, format_int}
use auto_cert.Model.{Alert, AlertKind}
use auto_cert.Notify.Render.{build, Layouts, format_signed, short_kind, or_dash}
use auto_cert.Notify.Html.Badges.{
  escape_char, escape_html, row_color, issuer_colors, issuer_span, issuer_span_parts, issuer_label,
  issuer_badge, issuer_short, source_colors, source_badge, source_badge_parts, kind_colors,
  kind_badge, kind_badge_parts,
}
use auto_cert.Notify.Html.Rows.{
  rows_from, expired_row, expired_row_parts, mismatch_row, mismatch_row_parts, expiring_row,
  expiring_row_parts, render_expired_rows, render_mismatch_rows, render_expiring_rows,
}

-- The number of tags that a text opens.
unfoldable pub tags : Text → ℕ
tags [] = 0
tags (c ∷ s) = (if c == b'<' then 1 else 0) + tags s

pub tags-append : (s t : Text) → tags (s ++ t) ≡ tags s + tags t
unfolding tags
tags-append [] t = omega arith
tags-append (c ∷ s) t = omega (arith, tags-append s t)

pub tags-nil : tags [] ≡ 0
unfolding tags
tags-nil = refl

abbrev pub tags_all : List Text → ℕ
tags_all [] = 0
tags_all (s ∷ parts) = tags s + tags_all parts

pub tags-build : (parts : List Text) → tags (build parts) ≡ tags_all parts
tags-build [] = tags-nil
tags-build (s ∷ parts) = omega (arith, tags-append s (build parts), tags-build parts)

tags-escape_char : (c : ℕ) → tags (escape_char c) ≡ 0
unfolding tags
tags-escape_char c = ground arith

-- An escaped text opens no tag.
pub tags-escape_html : (s : Text) → tags (escape_html s) ≡ 0
unfolding escape_html
tags-escape_html [] = tags-nil
tags-escape_html (c ∷ s) =
    omega
      (arith, tags-append (escape_char c) (escape_html s), tags-escape_char c, tags-escape_html s)

tags-contains : (s : Text) → contains s b'<' ≡ false → tags s ≡ 0
unfolding tags
tags-contains [] h = refl
tags-contains (c ∷ s) h = ground (arith, tags-contains s)

pub tags-format_nat : (n : ℕ) → tags (format_nat n) ≡ 0
tags-format_nat n = tags-contains (format_nat n) (contains-format_nat_high n b'<' (omega arith))

tags-format_int : (n : ℤ) → tags (format_int n) ≡ 0
unfolding format_int tags
tags-format_int (pos n) = tags-format_nat n
tags-format_int (negsuc n) = omega (arith, tags-format_nat (suc n))

tags-format_signed : (n : ℤ) → tags (format_signed n) ≡ 0
unfolding format_signed tags
tags-format_signed (pos n) = omega (arith, tags-format_nat n)
tags-format_signed (negsuc n) = omega (arith, tags-format_nat (suc n))

pub tags-row_color : (i : ℕ) → tags (row_color i) ≡ 0
unfolding tags
tags-row_color i = ground arith

tags-issuer_colors :
    (name : Text) → (tags (issuer_colors name).0 ≡ 0) × (tags (issuer_colors name).1 ≡ 0)
unfolding tags
tags-issuer_colors name = ground arith

tags-issuer_span : (name : Text) → tags (issuer_span name) ≡ 2
unfolding tags
tags-issuer_span name =
    tags-build (issuer_span_parts name)
    ∙ omega (arith, tags-escape_html name, (tags-issuer_colors name).0, (tags-issuer_colors name).1)

tags-issuer_label : (name : Text) → tags (issuer_label name) ≡ 2
unfolding tags
tags-issuer_label [] = refl
tags-issuer_label (c ∷ s) = tags-issuer_span (c ∷ s)

tags-issuer_badge : (issuer : Text) → tags (issuer_badge issuer) ≡ 2
tags-issuer_badge issuer = tags-issuer_label (issuer_short issuer)

tags-source_colors :
    (name : Text) → (tags (source_colors name).0 ≡ 0) × (tags (source_colors name).1 ≡ 0)
unfolding tags
tags-source_colors name = ground arith

pub tags-source_badge : (source : Text) → tags (source_badge source) ≡ 2
unfolding tags
tags-source_badge source =
    tags-build (source_badge_parts source)
    ∙ omega (
      arith,
      tags-escape_html (or_dash source),
      (tags-source_colors (or_dash source)).0,
      (tags-source_colors (or_dash source)).1,
    )

tags-kind_colors : (name : Text) → (tags (kind_colors name).0 ≡ 0) × (tags (kind_colors name).1 ≡ 0)
unfolding tags
tags-kind_colors name = ground arith

-- The label of a kind is not escaped, so it matters that no kind opens a tag.
tags-short_kind : (k : AlertKind) → tags k ≡ 0 → tags (short_kind k) ≡ 0
unfolding tags
tags-short_kind k h = ground arith

tags-kind_badge : (k : AlertKind) → tags k ≡ 0 → tags (kind_badge k) ≡ 2
unfolding tags
tags-kind_badge k h =
    tags-build (kind_badge_parts k)
    ∙ omega (
      arith,
      tags-short_kind k h,
      (tags-kind_colors (short_kind k)).0,
      (tags-kind_colors (short_kind k)).1,
    )

-- An alert whose kind opens no tag.
abbrev pub IsPlain : Alert → Type 0
IsPlain a = tags a.kind ≡ 0

tags-rows_from :
    (row : ℕ → Alert → Text) (n : ℕ)
    → ((i : ℕ) (a : Alert) → IsPlain a → tags (row i a) ≡ n)
    → (i : ℕ) (alerts : List Alert) → All IsPlain alerts
    → tags (rows_from row i alerts) ≡ n * length alerts
tags-rows_from row n h i [] plain = grind (arith, tags-nil)
tags-rows_from row n h i (a ∷ alerts) plain =
    tags-append (row i a) (rows_from row (suc i) alerts)
    ∙ grind (arith, h i a plain.0, tags-rows_from row n h (suc i) alerts plain.1)

module _ (layouts : Layouts) where
  tags-expired_row : (i : ℕ) (a : Alert) → IsPlain a → tags (expired_row layouts i a) ≡ 20
  unfolding tags
  tags-expired_row i a h =
      tags-build (expired_row_parts layouts i a)
      ∙ omega (
        arith,
        tags-row_color i,
        tags-escape_html a.domain,
        tags-kind_badge a.kind h,
        tags-source_badge a.source,
        tags-issuer_badge a.issuer,
        tags-format_int (negate a.days_left),
        tags-escape_html (layouts.date a.expires_at),
      )

  tags-mismatch_row : (i : ℕ) (a : Alert) → tags (mismatch_row layouts i a) ≡ 14
  unfolding tags
  tags-mismatch_row i a =
      tags-build (mismatch_row_parts layouts i a)
      ∙ omega (
        arith,
        tags-row_color i,
        tags-escape_html a.domain,
        tags-source_badge a.source,
        tags-format_signed a.days_left,
        tags-escape_html (layouts.date a.expires_at),
        tags-escape_html (layouts.date a.fallback_expected),
      )

  tags-expiring_row : (i : ℕ) (a : Alert) → IsPlain a → tags (expiring_row layouts i a) ≡ 22
  unfolding tags
  tags-expiring_row i a h =
      tags-build (expiring_row_parts layouts i a)
      ∙ omega (
        arith,
        tags-row_color i,
        tags-escape_html a.domain,
        tags-kind_badge a.kind h,
        tags-source_badge a.source,
        tags-issuer_badge a.issuer,
        tags-format_int a.days_left,
        tags-escape_html (layouts.date a.expires_at),
        tags-format_int a.threshold,
      )

  -- Each row of the three tables opens the tags of its template, whatever the alert carries.
  pub tags-render_rows :
      (alerts : List Alert)
      → All IsPlain alerts
      → (tags (render_expired_rows layouts alerts) ≡ 20 * length alerts)
        × (tags (render_expiring_rows layouts alerts) ≡ 22 * length alerts)
        × (tags (render_mismatch_rows layouts alerts) ≡ 14 * length alerts)
  unfolding render_expired_rows render_expiring_rows render_mismatch_rows
  tags-render_rows alerts plain = (
    tags-rows_from (expired_row layouts) 20 tags-expired_row 0 alerts plain,
    tags-rows_from (expiring_row layouts) 22 tags-expiring_row 0 alerts plain,
    tags-rows_from (mismatch_row layouts) 14 (λ i a h. tags-mismatch_row i a) 0 alerts plain,
  )
