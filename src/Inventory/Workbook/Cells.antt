-- ===== src/Inventory/Workbook/Cells.antt =====
-- What the cells of the workbook hold.
use auto_cert.Base.{
  get_elem?-none-length, Option-cases, ◌⊎◌, ◌<◌, ◌≤◌, ◌+◌, zero, suc, length, get_elem?, inl, inr,
  subst, ◌≡◌, refl, sym, ap, ◌∙◌, ℕ, Option, none, some, List, [], ◌∷◌, ◌++◌, ◌&&◌, list_eq, nat_eq,
  arith, if◌then◌else◌, ◌==◌,
}
use auto_cert.Base.Text.{Text, codes, join}
use auto_cert.Base.Dict.Fill.{or_else, or_else-none, or_else_assoc}
use auto_cert.Base.Members.{collect}
use auto_cert.Time.{Time}
use auto_cert.Inventory.{Snapshot, Entry, CertSection, DomainSection}
use auto_cert.Inventory.Workbook.{
  body_steps, styled_steps, entry_writes, entry_steps, header_steps, date_steps, date_columns,
  first_steps, last_steps, steps, headers, Value, text, number, Call, set_cell_value, Step,
  Excelize, date_or_empty, date_or_empty_t, days_left_int, format_alerts_xlsx, cert_writes,
  domain_writes, cell_step, Writes,
}

-- A field of a section that may be missing.
abbrev pub field {ℓ} : {A : Type ℓ} → Option A → (A → Option Value) → Option Value
field none f = none
field (some a) f = f a

module _ (lib : Excelize) (now : Time) where
  cert_column : ℕ → CertSection → Option Value
  cert_column c s =
      if c == 5
      then date_or_empty_t s.not_after
      else if c == 6
      then days_left_int now s.not_after
      else if c == 7
      then some (text s.issuer)
      else if c == 8
      then some (text s.subject)
      else if c == 9
      then some (text (join s.dns_names (codes "; ")))
      else if c == 10
      then date_or_empty_t s.checked_at
      else if c == 11
      then some (text s.error)
      else none

  domain_column : ℕ → DomainSection → Option Value
  domain_column c s =
      if c == 12
      then date_or_empty_t s.expires_at
      else if c == 13
      then days_left_int now s.expires_at
      else if c == 14
      then some (text s.source)
      else if c == 15
      then date_or_empty_t s.checked_at
      else if c == 16
      then some (text s.error)
      else none

  own_column : Entry → ℕ → Option Value
  own_column e c =
      if c == 1
      then some (text e.name)
      else if c == 2
      then some (number e.port)
      else if c == 3
      then some (text e.source)
      else if c == 4
      then date_or_empty e.expiry_fallback
      else if c == 17
      then some (text (format_alerts_xlsx lib e.alerts))
      else none

  -- What a column shows of an entry: its own fields, those of its certificate, in columns 5 to 11,
  -- and those of its registration, in columns 12 to 16.
  pub column : Entry → ℕ → Option Value
  column e c =
      or_else (own_column e c)
        (or_else (field e.cert (cert_column c)) (field e.domain (domain_column c)))

-- The value that a cell has after the calls: that of the last call that set it.
abbrev set_by : ℕ → ℕ → Call → Option Value
set_by c r (set_cell_value col row v) = if c == col && r == row then some v else none
set_by c r other = none

abbrev pub value_at : ℕ → ℕ → List Step → Option Value
value_at c r [] = none
value_at c r ((_, call) ∷ later) = or_else (value_at c r later) (set_by c r call)

-- The value that a list of writes has for a column.
abbrev written_at : ℕ → Writes → Option Value
written_at c [] = none
written_at c ((col, o) ∷ later) = or_else (written_at c later) (if c == col then o else none)

module _ (c r : ℕ) where
  value_at-append :
      (xs ys : List Step) → value_at c r (xs ++ ys) ≡ or_else (value_at c r ys) (value_at c r xs)
  value_at-append [] ys = sym (or_else-none (value_at c r ys))
  value_at-append ((w, call) ∷ xs) ys =
      ap (λ o. or_else o (set_by c r call)) (value_at-append xs ys)
      ∙ or_else_assoc (value_at c r ys) (value_at c r xs) (set_by c r call)

  -- Steps that leave the cell alone.
  value_at-append_none :
      (xs ys : List Step) → value_at c r xs ≡ none → value_at c r (xs ++ ys) ≡ value_at c r ys
  value_at-append_none xs ys h =
      value_at-append xs ys ∙ ap (or_else (value_at c r ys)) h ∙ or_else-none (value_at c r ys)

  value_at-append_left :
      (xs ys : List Step) → value_at c r ys ≡ none → value_at c r (xs ++ ys) ≡ value_at c r xs
  value_at-append_left xs ys h = value_at-append xs ys ∙ ap (λ o. or_else o (value_at c r xs)) h

module _ (lib : Excelize) (c : ℕ) where
  value_at-cell_step :
      (r row col : ℕ) (o : Option Value)
      → value_at c r (cell_step lib row (col, o))
        ≡ (if r == row then (if c == col then o else none) else none)
  value_at-cell_step r row col none = ground arith
  value_at-cell_step r row col (some v) = ground arith

  value_at-collect :
      (r row : ℕ) (ws : Writes)
      → value_at c r (collect (cell_step lib row) ws) ≡ (if r == row then written_at c ws else none)
  value_at-collect r row [] = ground arith
  value_at-collect r row ((col, o) ∷ ws) =
      value_at-append c r (cell_step lib row (col, o)) (collect (cell_step lib row) ws)
      ∙ ground (arith, value_at-cell_step r row col o, value_at-collect r row ws)

  written_at-append :
      (xs ys : Writes) → written_at c (xs ++ ys) ≡ or_else (written_at c ys) (written_at c xs)
  written_at-append [] ys = sym (or_else-none (written_at c ys))
  written_at-append ((col, o) ∷ xs) ys =
      ap (λ p. or_else p (if c == col then o else none)) (written_at-append xs ys)
      ∙ or_else_assoc (written_at c ys) (written_at c xs) (if c == col then o else none)

  module _ (now : Time) where
    written_at-cert :
        (o : Option CertSection)
        → written_at c (cert_writes lib now o) ≡ field o (cert_column lib now c)
    unfolding cert_column
    written_at-cert none = refl
    written_at-cert (some s) = ground arith

    written_at-domain :
        (o : Option DomainSection)
        → written_at c (domain_writes lib now o) ≡ field o (domain_column lib now c)
    unfolding domain_column
    written_at-domain none = refl
    written_at-domain (some s) = ground arith

    cert_columns :
        (o : Option CertSection) → (field o (cert_column lib now c) ≡ none) ⊎ ((5 ≤ c) × (c ≤ 11))
    unfolding cert_column
    cert_columns none = inl refl
    cert_columns (some s) = ground arith

    domain_columns :
        (o : Option DomainSection)
        → (field o (domain_column lib now c) ≡ none) ⊎ ((12 ≤ c) × (c ≤ 16))
    unfolding domain_column
    domain_columns none = inl refl
    domain_columns (some s) = ground arith

    -- The columns of the entry itself, around those of its sections.
    own_columns :
        (e : Entry) (s d : Option Value)
        → (s ≡ none) ⊎ ((5 ≤ c) × (c ≤ 11))
        → (d ≡ none) ⊎ ((12 ≤ c) × (c ≤ 16))
        → or_else
            (or_else
              (or_else
                (or_else
                  (or_else
                    (or_else
                      (if c == 17 then some (text (format_alerts_xlsx lib e.alerts)) else none)
                      d)
                    s)
                  (if c == 4 then date_or_empty e.expiry_fallback else none))
                (if c == 3 then some (text e.source) else none))
              (if c == 2 then some (number e.port) else none))
            (if c == 1 then some (text e.name) else none)
          ≡ or_else (own_column lib now e c) (or_else s d)
    unfolding own_column
    own_columns e s d (inl h) (inl k) = ground arith
    own_columns e s d (inl h) (inr k) = ground arith
    own_columns e s d (inr h) (inl k) = ground arith
    own_columns e s d (inr h) (inr k) = absurd (omega arith)

    written_at-entry : (e : Entry) → written_at c (entry_writes lib now e) ≡ column lib now e c
    unfolding column
    written_at-entry e =
        ap
          (λ o.
            or_else
              (or_else
                (or_else (or_else o (if c == 4 then date_or_empty e.expiry_fallback else none))
                  (if c == 3 then some (text e.source) else none))
                (if c == 2 then some (number e.port) else none))
              (if c == 1 then some (text e.name) else none))
          (written_at-append (cert_writes lib now e.cert) _
            ∙ ap (λ o. or_else o (written_at c (cert_writes lib now e.cert)))
                (written_at-append (domain_writes lib now e.domain) _
                  ∙ ap
                      (or_else
                        (if c == 17 then some (text (format_alerts_xlsx lib e.alerts)) else none))
                      (written_at-domain e.domain))
            ∙ ap (or_else _) (written_at-cert e.cert))
        ∙ own_columns e (field e.cert (cert_column lib now c))
            (field e.domain (domain_column lib now c)) (cert_columns e.cert)
            (domain_columns e.domain)

    value_at-entry :
        (r row : ℕ) (e : Entry)
        → value_at c r (collect (cell_step lib row) (entry_writes lib now e))
          ≡ (if r == row then column lib now e c else none)
    value_at-entry r row e =
        value_at-collect r row (entry_writes lib now e)
        ∙ ap (λ o. if r == row then o else none) (written_at-entry e)

    entry_steps-above :
        (r row : ℕ) (es : List Entry) → r < row → value_at c r (entry_steps lib now row es) ≡ none
    entry_steps-above r row [] h = refl
    entry_steps-above r row (e ∷ es) h =
        value_at-append_none c r (collect (cell_step lib row) (entry_writes lib now e)) _
          (value_at-entry r row e ∙ ground arith)
        ∙ entry_steps-above r (suc row) es (omega arith)

    -- The row of an entry shows its columns.
    entry_steps-row :
        (i row : ℕ) (es : List Entry) {f : Entry}
        → get_elem? es i ≡ some f
        → value_at c (row + i) (entry_steps lib now row es) ≡ column lib now f c
    entry_steps-row i row [] h = cc
    entry_steps-row zero row (e ∷ es) h =
        value_at-append_left c (row + 0) (collect (cell_step lib row) (entry_writes lib now e)) _
          (entry_steps-above (row + 0) (suc row) es (omega arith))
        ∙ value_at-entry (row + 0) row e
        ∙ ground arith
    entry_steps-row (suc i) row (e ∷ es) {f} h =
        value_at-append_none c (row + suc i) (collect (cell_step lib row) (entry_writes lib now e))
          _ (value_at-entry (row + suc i) row e ∙ ground arith)
        ∙ subst (λ n. value_at c n (entry_steps lib now (suc row) es) ≡ column lib now f c)
            (omega arith) (entry_steps-row i (suc row) es h)

    -- The rows behind the last entry are empty.
    entry_steps-below :
        (i row : ℕ) (es : List Entry)
        → length es ≤ i
        → value_at c (row + i) (entry_steps lib now row es) ≡ none
    entry_steps-below i row [] h = refl
    entry_steps-below zero row (e ∷ es) h = absurd (omega arith)
    entry_steps-below (suc i) row (e ∷ es) h =
        value_at-append_none c (row + suc i) (collect (cell_step lib row) (entry_writes lib now e))
          _ (value_at-entry (row + suc i) row e ∙ ground arith)
        ∙ subst (λ n. value_at c n (entry_steps lib now (suc row) es) ≡ none) (omega arith)
            (entry_steps-below i (suc row) es (omega arith))

    header_steps-below :
        (r col : ℕ) (hs : List Text) → value_at c (suc (suc r)) (header_steps lib col hs) ≡ none
    header_steps-below r col [] = refl
    header_steps-below r col (h ∷ hs) = ground (arith, header_steps-below r (suc col) hs)

    date_steps-none : (r n : ℕ) (cs : List ℕ) → value_at c r (date_steps lib n cs) ≡ none
    date_steps-none r n [] = refl
    date_steps-none r n (k ∷ cs) = ground (arith, date_steps-none r n cs)

    date_columns-none : (r n : ℕ) → value_at c r (date_columns lib n) ≡ none
    date_columns-none r zero = refl
    date_columns-none r (suc n) = date_steps-none r (suc n) (4 ∷ 5 ∷ 10 ∷ 12 ∷ 15 ∷ [])

    last_steps-none : (r n : ℕ) → value_at c r (last_steps lib n) ≡ none
    last_steps-none r n = value_at-append_none c r (date_columns lib n) _ (date_columns-none r n)

    -- What is set in a row below the header is set by the loop over the entries.
    value_at-steps :
        (snap : Snapshot) (r : ℕ)
        → value_at c (suc (suc r)) (steps lib snap)
          ≡ value_at c (suc (suc r)) (entry_steps lib snap.generated_at 2 snap.entries)
    unfolding steps
    value_at-steps snap r =
        value_at-append_none c (suc (suc r)) (first_steps lib)
          (header_steps lib 1 headers ++ styled_steps lib snap) refl
        ∙ value_at-append_none c (suc (suc r)) (header_steps lib 1 headers) (styled_steps lib snap)
            (header_steps-below r 1 headers)
        ∙ or_else-none (value_at c (suc (suc r)) (body_steps lib snap))
        ∙ value_at-append_left c (suc (suc r)) (entry_steps lib snap.generated_at 2 snap.entries)
            (last_steps lib (length snap.entries))
            (last_steps-none (suc (suc r)) (length snap.entries))

  -- What the cells of a row hold: the columns of an entry, and nothing behind the last one.
  abbrev pub RowsAre : Snapshot → Type 0
  RowsAre snap =
      (i : ℕ)
      → value_at c (i + 2) (steps lib snap)
        ≡ field (get_elem? snap.entries i) (λ e. column lib snap.generated_at e c)

  row_of :
      (snap : Snapshot) (i : ℕ) (shown : Option Value)
      → value_at c (i + 2) (entry_steps lib snap.generated_at 2 snap.entries) ≡ shown
      → value_at c (i + 2) (steps lib snap) ≡ shown
  row_of snap i shown h =
      subst (λ n. value_at c n (steps lib snap) ≡ shown) (omega arith)
        (value_at-steps snap.generated_at snap i
          ∙ subst (λ n. value_at c n (entry_steps lib snap.generated_at 2 snap.entries) ≡ shown)
              (omega arith) h)

  pub rows : (snap : Snapshot) → RowsAre snap
  rows snap i = elim (Option-cases (get_elem? snap.entries i)) [
    | inl h ↦
        row_of snap i none (
          subst (λ n. value_at c n (entry_steps lib snap.generated_at 2 snap.entries) ≡ none)
            (omega arith)
            (entry_steps-below snap.generated_at i 2 snap.entries
              (get_elem?-none-length snap.entries i h)))
        ∙ ap (λ o. field o (λ e. column lib snap.generated_at e c)) (sym h)
    | inr (e, h) ↦
        row_of snap i (column lib snap.generated_at e c) (
          subst
            (λ n.
              value_at c n (entry_steps lib snap.generated_at 2 snap.entries)
              ≡ column lib snap.generated_at e c)
            (omega arith) (entry_steps-row snap.generated_at i 2 snap.entries h))
        ∙ ap (λ o. field o (λ e. column lib snap.generated_at e c)) (sym h)
  ]
