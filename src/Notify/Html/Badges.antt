-- ===== src/Notify/Html/Badges.antt =====
-- internal/notify/html.go: escaping, and the coloured labels of the tables.
use auto_cert.Base.{ℕ, List, [], ◌∷◌, ◌++◌, ◌||◌, list_eq, nat_eq, if◌then◌else◌, ◌==◌, ◌%◌}
use auto_cert.Base.Text.{Text, codes, split, trim_space, trim_prefix, has_prefix}
use auto_cert.Model.{AlertKind}
use auto_cert.Notify.Render.{build, short_kind, or_dash}

-- `html.EscapeString`
abbrev pub escape_char : ℕ → Text
escape_char c =
    if c == b'<'
    then codes "&lt;"
    else if c == b'>'
    then codes "&gt;"
    else if c == b'&'
    then codes "&amp;"
    else if c == 39
    then codes "&#39;"
    else if c == 34
    then codes "&#34;"
    else c ∷ []

unfoldable pub escape_html : Text → Text
escape_html [] = []
escape_html (c ∷ s) = escape_char c ++ escape_html s

-- The background of a row, by its index.
abbrev pub row_color : ℕ → Text
row_color i = if i % 2 == 1 then codes "#fafbfc" else codes "#ffffff"

-- The loop of `extractRDN`.
abbrev pub find_rdn : List Text → Text → Text
find_rdn [] prefix = []
find_rdn (part ∷ rest) prefix =
    let later = find_rdn rest prefix in
    if has_prefix (trim_space part) prefix
    then trim_space (trim_prefix (trim_space part) prefix)
    else later

-- `extractRDN`
unfoldable pub extract_rdn : Text → Text → Text
unfolding split trim_space trim_prefix has_prefix
extract_rdn dn prefix = find_rdn (split dn b',') prefix

-- The brand of a name that begins with one.
abbrev pub brand_of : Text → Text
brand_of candidate =
    if has_prefix candidate (codes "Amazon")
    then codes "Amazon"
    else if has_prefix candidate (codes "Sectigo")
    then codes "Sectigo"
    else if has_prefix candidate (codes "Let's Encrypt")
    then codes "Let's Encrypt"
    else if has_prefix candidate (codes "DigiCert")
    then codes "DigiCert"
    else if has_prefix candidate (codes "GoDaddy") || has_prefix candidate (codes "Starfield")
    then codes "GoDaddy"
    else if has_prefix candidate (codes "Comodo")
    then codes "Comodo"
    else candidate

abbrev pub or_text : Text → Text → Text
or_text [] t = t
or_text (c ∷ s) t = c ∷ s

abbrev pub brand_or_empty : Text → Text
brand_or_empty [] = []
brand_or_empty (c ∷ s) = brand_of (c ∷ s)

-- `issuerShort`: the organisation, or the common name
unfoldable pub issuer_short : Text → Text
unfolding extract_rdn has_prefix
issuer_short [] = []
issuer_short (c ∷ raw) =
    brand_or_empty
      (or_text (extract_rdn (c ∷ raw) (codes "O=")) (extract_rdn (c ∷ raw) (codes "CN=")))

-- The background and the colour of an issuer.
abbrev pub issuer_colors : Text → Text × Text
issuer_colors name =
    if name == codes "Amazon" || name == codes "Let's Encrypt"
    then (codes "#ecfdf5", codes "#065f46")
    else if name == codes "Sectigo"
        || name == codes "DigiCert"
        || name == codes "GoDaddy"
        || name == codes "Comodo"
    then (codes "#fef3c7", codes "#92400e")
    else (codes "#f1f5f9", codes "#475569")

abbrev pub issuer_span_parts : Text → List Text
issuer_span_parts name =
    let colors = issuer_colors name in
    (codes "<span style=\"display:inline-block;padding:2px 8px;background:"
      ∷ colors.0
      ∷ codes ";color:"
      ∷ colors.1
      ∷ codes ";border-radius:4px;font-size:11px;font-weight:500;\">"
      ∷ escape_html name
      ∷ codes "</span>"
      ∷ [])

abbrev pub issuer_span : Text → Text
issuer_span name = build (issuer_span_parts name)

abbrev pub issuer_label : Text → Text
issuer_label [] = codes "<span style=\"color:#9ca3af;\">—</span>"
issuer_label (c ∷ s) = issuer_span (c ∷ s)

-- `issuerBadge`
abbrev pub issuer_badge : Text → Text
issuer_badge issuer = issuer_label (issuer_short issuer)

abbrev pub source_colors : Text → Text × Text
source_colors name =
    if name == codes "route53"
    then (codes "#fff7ed", codes "#9a3412")
    else if name == codes "namecom"
    then (codes "#eff6ff", codes "#1e3a8a")
    else if name == codes "static"
    then (codes "#ecfdf5", codes "#065f46")
    else if name == codes "mi.com.co"
    then (codes "#fef3c7", codes "#92400e")
    else if name == codes "marcaria.com"
    then (codes "#fce7f3", codes "#9d174d")
    else if name == codes "networksolutions.com"
    then (codes "#e0e7ff", codes "#3730a3")
    else (codes "#f1f5f9", codes "#475569")

-- `sourceBadge`
abbrev pub source_badge_parts : Text → List Text
source_badge_parts source =
    let name = or_dash source in
    let colors = source_colors name in
    (codes "<span style=\"display:inline-block;padding:2px 8px;background:"
      ∷ colors.0
      ∷ codes ";color:"
      ∷ colors.1
      ∷ codes ";border-radius:4px;font-size:11px;font-weight:500;letter-spacing:0.02em;\">"
      ∷ escape_html name
      ∷ codes "</span>"
      ∷ [])

abbrev pub source_badge : Text → Text
source_badge source = build (source_badge_parts source)

abbrev pub kind_colors : Text → Text × Text
kind_colors name =
    if name == codes "cert"
    then (codes "#dbeafe", codes "#1e40af")
    else if name == codes "domain"
    then (codes "#ede9fe", codes "#5b21b6")
    else (codes "#f1f5f9", codes "#475569")

-- `kindBadge`, whose label is not escaped
abbrev pub kind_badge_parts : AlertKind → List Text
kind_badge_parts k =
    let name = short_kind k in
    let colors = kind_colors name in
    (codes "<span style=\"display:inline-block;padding:2px 8px;background:"
      ∷ colors.0
      ∷ codes ";color:"
      ∷ colors.1
      ∷ codes
          ";border-radius:4px;font-size:11px;font-weight:500;text-transform:uppercase;letter-spacing:0.03em;\">"
      ∷ name
      ∷ codes "</span>"
      ∷ [])

abbrev pub kind_badge : AlertKind → Text
kind_badge k = build (kind_badge_parts k)
