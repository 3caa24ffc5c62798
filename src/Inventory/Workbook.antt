-- ===== src/Inventory/Workbook.antt =====
-- internal/inventory/xlsx.go: the snapshot as a workbook, over the library that writes it.
pub mod Cells
pub mod Written
use mathlib.Core.List.{map}
use auto_cert.Base.{
  ℕ, zero, suc, ◌+◌, Option, none, some, List, [], ◌∷◌, ◌++◌, list_eq, nat_eq, if◌then◌else◌,
  length,
}
use auto_cert.Base.Int.{ℤ}
use auto_cert.Base.Text.{Text, codes, join, format_int}
use auto_cert.Base.Members.{collect}
use auto_cert.Base.Result.{Result, ok, err, ◌>>=◌, wrap}
use auto_cert.Model.{Error}
use auto_cert.Time.{Time, is_zero, utc, sub, whole_days}
use auto_cert.Inventory.{Snapshot, Entry, CertSection, DomainSection, AlertEntry}

-- What a cell can be set to.
pub data Value : Type 0 where
  text : Text → Value
  number : ℤ → Value
  date : Time → Value

-- The styles that `MarshalXLSX` makes.
pub data Style : Type 0 where
  header : Style
  date_format : Style

-- The calls of the library; a cell is a column and a row, from 1 on.
pub data Call : Type 0 where
  new_sheet : Text → Call
  delete_sheet : Text → Call
  set_active_sheet : Call
  new_style : Style → Call
  set_cell_value : ℕ → ℕ → Value → Call
  set_cell_style : ℕ → ℕ → ℕ → ℕ → Style → Call
  -- The first row stays in sight.
  set_panes : Call
  auto_filter : ℕ → ℕ → Call
  set_col_width : Text → ℕ → Call

-- The library: the error of a call behind earlier calls, the bytes of the workbook, and the name of
-- a cell. `format_date` is `t.Format("2006-01-02")`.
pub record Excelize : Type 0 where
  pub call_error : List Call → Call → Error
  pub bytes : List Call → Result Text
  pub cell_name : ℕ → ℕ → Text
  pub format_date : Time → Text

-- A call, and the words in front of its error.
abbrev pub Step : Type 0
Step = Text × Call

-- `dateOrEmptyT`; none is nil
abbrev pub date_or_empty_t : Time → Option Value
date_or_empty_t t = if is_zero t then none else some (date (utc t))

-- `dateOrEmpty`
abbrev pub date_or_empty : Option Time → Option Value
date_or_empty none = none
date_or_empty (some t) = date_or_empty_t t

-- `daysLeftInt`
abbrev pub days_left_int : Time → Time → Option Value
days_left_int now until = if is_zero until then none else some (number (whole_days (sub until now)))

abbrev pub headers : List Text
headers =
    codes "name"
    ∷ codes "port"
    ∷ codes "source"
    ∷ codes "expiry_fallback"
    ∷ codes "cert_not_after"
    ∷ codes "cert_days_left"
    ∷ codes "cert_issuer"
    ∷ codes "cert_subject"
    ∷ codes "cert_dns_names"
    ∷ codes "cert_checked_at"
    ∷ codes "cert_error"
    ∷ codes "domain_expires_at"
    ∷ codes "domain_days_left"
    ∷ codes "domain_source"
    ∷ codes "domain_checked_at"
    ∷ codes "domain_error"
    ∷ codes "alerts"
    ∷ []

abbrev pub widths : List (Text × ℕ)
widths =
    (codes "A", 38)
    ∷ (codes "B", 6)
    ∷ (codes "C", 16)
    ∷ (codes "D", 14)
    ∷ (codes "E", 14)
    ∷ (codes "F", 8)
    ∷ (codes "G", 22)
    ∷ (codes "H", 32)
    ∷ (codes "I", 40)
    ∷ (codes "J", 14)
    ∷ (codes "K", 28)
    ∷ (codes "L", 14)
    ∷ (codes "M", 8)
    ∷ (codes "N", 12)
    ∷ (codes "O", 14)
    ∷ (codes "P", 28)
    ∷ (codes "Q", 50)
    ∷ []

-- The columns of an entry that are written, with their values.
abbrev pub Writes : Type 0
Writes = List (ℕ × Option Value)

module _ (lib : Excelize) where
  alert_date : Time → Text
  alert_date t = if is_zero t then [] else lib.format_date (utc t)

  alert_text : AlertEntry → Text
  unfolding alert_date format_int
  alert_text a =
      a.kind
      ++ b'@' ∷ format_int a.threshold
      ++ codes "d(left="
      ++ format_int a.days_left
      ++ codes ",exp="
      ++ alert_date a.expires_at
      ++ codes ")"

  -- `formatAlertsXLSX`
  unfoldable pub format_alerts_xlsx : List AlertEntry → Text
  unfolding alert_text join
  format_alerts_xlsx alerts = join (map alert_text alerts) (codes "; ")

  -- The cells of the certificate's columns, if the entry has a certificate.
  abbrev pub cert_writes : Time → Option CertSection → Writes
  cert_writes now none = []
  cert_writes now (some c) =
      (5, date_or_empty_t c.not_after)
      ∷ (6, days_left_int now c.not_after)
      ∷ (7, some (text c.issuer))
      ∷ (8, some (text c.subject))
      ∷ (9, some (text (join c.dns_names (codes "; "))))
      ∷ (10, date_or_empty_t c.checked_at)
      ∷ (11, some (text c.error))
      ∷ []

  abbrev pub domain_writes : Time → Option DomainSection → Writes
  domain_writes now none = []
  domain_writes now (some d) =
      (12, date_or_empty_t d.expires_at)
      ∷ (13, days_left_int now d.expires_at)
      ∷ (14, some (text d.source))
      ∷ (15, date_or_empty_t d.checked_at)
      ∷ (16, some (text d.error))
      ∷ []

  -- `writes`, for one entry
  abbrev pub entry_writes : Time → Entry → Writes
  entry_writes now e =
      (1, some (text e.name))
      ∷ (2, some (number e.port))
      ∷ (3, some (text e.source))
      ∷ (4, date_or_empty e.expiry_fallback)
      ∷ (cert_writes now e.cert
          ++ (domain_writes now e.domain ++ (17, some (text (format_alerts_xlsx e.alerts))) ∷ []))

  abbrev pub cell_step : ℕ → ℕ × Option Value → List Step
  cell_step row (col, none) = []
  cell_step row (col, some v) =
      (codes "xlsx cell " ++ lib.cell_name col row ++ codes ": ", set_cell_value col row v) ∷ []

  -- The loop over the entries, from a row on.
  abbrev pub entry_steps : Time → ℕ → List Entry → List Step
  entry_steps now row [] = []
  entry_steps now row (e ∷ es) =
      collect (cell_step row) (entry_writes now e) ++ entry_steps now (suc row) es

  abbrev pub header_steps : ℕ → List Text → List Step
  header_steps col [] = []
  header_steps col (h ∷ hs) =
      (codes "xlsx header " ++ lib.cell_name col 1 ++ codes ": ", set_cell_value col 1 (text h))
      ∷ header_steps (suc col) hs

  -- The styles of the columns with dates, if there is a row.
  abbrev pub date_steps : ℕ → List ℕ → List Step
  date_steps n [] = []
  date_steps n (c ∷ cs) =
      (codes "xlsx date style apply: ", set_cell_style c 2 c (n + 1) date_format) ∷ date_steps n cs

  abbrev pub date_columns : ℕ → List Step
  date_columns zero = []
  date_columns (suc n) = date_steps (suc n) (4 ∷ 5 ∷ 10 ∷ 12 ∷ 15 ∷ [])

  abbrev pub width_step : Text × ℕ → Step
  width_step (col, w) = (codes "xlsx col width " ++ col ++ codes ": ", set_col_width col w)

  abbrev pub first_steps : List Step
  first_steps =
      (codes "xlsx new sheet: ", new_sheet (codes "Inventario"))
      ∷ (codes "xlsx delete default sheet: ", delete_sheet (codes "Sheet1"))
      ∷ ([], set_active_sheet)
      ∷ (codes "xlsx header style: ", new_style header)
      ∷ (codes "xlsx date style: ", new_style date_format)
      ∷ []

  abbrev pub last_steps : ℕ → List Step
  last_steps n =
      date_columns n
      ++ ((codes "xlsx freeze: ", set_panes)
          ∷ (codes "xlsx autofilter: ", auto_filter (length headers) (n + 1))
          ∷ map width_step widths)

  abbrev pub body_steps : Snapshot → List Step
  body_steps snap = entry_steps snap.generated_at 2 snap.entries ++ last_steps (length snap.entries)

  abbrev pub styled_steps : Snapshot → List Step
  styled_steps snap =
      (codes "xlsx header style apply: ", set_cell_style 1 1 (length headers) 1 header)
      ∷ body_steps snap

  -- Every call, in its order.
  unfoldable pub steps : Snapshot → List Step
  unfolding format_alerts_xlsx
  steps snap = first_steps ++ (header_steps 1 headers ++ styled_steps snap)

  -- `SetActiveSheet` returns no error.
  abbrev pub error_of : List Call → Call → Error
  error_of past set_active_sheet = none
  error_of past call = lib.call_error past call

  -- The calls, up to the first error.
  abbrev pub perform : List Call → List Step → Result (List Call)
  perform past [] = ok past
  perform past ((words, call) ∷ later) =
      let rest = perform (past ++ call ∷ []) later in
      elim (error_of past call) [ some e ↦ err (words ++ e) | none ↦ rest ]

  -- `MarshalXLSX`
  unfoldable pub marshal_xlsx : Snapshot → Result Text
  unfolding steps
  marshal_xlsx snap =
      perform [] (steps snap) >>= λ calls. wrap (λ e. codes "xlsx write: " ++ e) (lib.bytes calls)
