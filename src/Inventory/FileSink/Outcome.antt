-- ===== src/Inventory/FileSink/Outcome.antt =====
-- What `Save` leaves in the two files, whichever call failed.
use auto_cert.Base.{
  ◌≡◌, ◌≢◌, refl, sym, ap, ◌∙◌, ℕ, some, ◌++◌, ◌-◌, list_eq, nat_eq, arith, inl, inr, ◌⊎◌,
  Bool-cases, length, length-append, take,
}
use auto_cert.Base.Text.{Text, codes, to_lower, has_suffix, lower}
use auto_cert.Base.Text.Ends.{last_or, last_or-append, last_or-to_lower, last_or-suffix}
use auto_cert.Base.Dict.{lookup}
use auto_cert.Base.Result.{Result, ok, err, Result-cases}
use auto_cert.Files.{Disk, Os, mkdir_all, write_rename, tmp_of}
use auto_cert.Files.Atomic.{write_rename_atomic}
use auto_cert.Inventory.{Snapshot}
use auto_cert.Inventory.FileSink.{
  xlsx_path_for, save_workbook, after_json, save_json, save_snapshot,
}

-- The path of the workbook is that of the snapshot with another ending, or a longer one.
xlsx_path_for-cases :
    (path : Text)
    → ((b : Text) × (xlsx_path_for path ≡ b ++ codes ".xlsx") × (last_or 0 (to_lower path) ≡ b'n'))
      ⊎ (xlsx_path_for path ≡ path ++ codes ".xlsx")
unfolding xlsx_path_for
xlsx_path_for-cases path = elim (Bool-cases (has_suffix (to_lower path) (codes ".json"))) [
  | inl h ↦
      inl
        (take (length path - 5) path, rw h, last_or-suffix 0 (to_lower path) b'.' (codes "json") h)
  | inr h ↦ inr (rw h)
]

-- The last character of a path, in lower case.
abbrev ending : Text → ℕ
ending s = lower (last_or 0 s)

ending-lower : (s : Text) → last_or 0 (to_lower s) ≡ ending s
ending-lower s = last_or-to_lower 0 s

ending-xlsx : (b : Text) → ending (b ++ codes ".xlsx") ≡ b'x'
ending-xlsx b = ap lower (last_or-append 0 b (codes ".xlsx"))

ending-tmp : (b : Text) → ending (tmp_of b) ≡ b'p'
ending-tmp b = ap lower (last_or-append 0 b (codes ".tmp"))

module _ (path : Text) where
  pub xlsx_path_for-ne : xlsx_path_for path ≢ path
  xlsx_path_for-ne e = elim (xlsx_path_for-cases path) [
    | inl (b, at, last) ↦
        omega (arith, sym (ending-xlsx b) ∙ ap ending (sym at ∙ e) ∙ sym (ending-lower path) ∙ last)
    | inr at ↦ omega (arith, ap length (sym at ∙ e), length-append path (codes ".xlsx"))
  ]

  ending-xlsx_path_for : ending (xlsx_path_for path) ≡ b'x'
  ending-xlsx_path_for = elim (xlsx_path_for-cases path) [
    | inl (b, at, last) ↦ ap ending at ∙ ending-xlsx b
    | inr at ↦ ap ending at ∙ ending-xlsx path
  ]

  pub xlsx_path_for-ne-tmp_of : xlsx_path_for path ≢ tmp_of path
  xlsx_path_for-ne-tmp_of e =
      omega (arith, sym ending-xlsx_path_for ∙ ap ending e ∙ ending-tmp path)

  pub tmp_of-xlsx_path_for-ne : tmp_of (xlsx_path_for path) ≢ path
  tmp_of-xlsx_path_for-ne e = elim (xlsx_path_for-cases path) [
    | inl (b, at, last) ↦ omega (
      arith,
      sym (ending-tmp (xlsx_path_for path)) ∙ ap ending e ∙ sym (ending-lower path) ∙ last,
    )
    | inr at ↦ omega (
      arith,
      ap length e,
      length-append (xlsx_path_for path) (codes ".tmp"),
      ap length at,
      length-append path (codes ".xlsx"),
    )
  ]

module _ (marshal_json marshal_xlsx : Snapshot → Result Text) (path : Text) (os os' : Os)
    (s : Snapshot) (disk : Disk) where
  abbrev pub saved : Result (Unit {0}) × Disk
  saved = save_snapshot marshal_json marshal_xlsx path os os' s disk

  abbrev pub book_path : Text
  book_path = xlsx_path_for path

  -- Both files are new.
  pub record Both : Type 0 where
    pub json : Text
    pub book : Text
    pub json_is : marshal_json s ≡ ok json
    pub book_is : marshal_xlsx s ≡ ok book
    pub succeeded : saved.0 ≡ ok tt
    pub json_at : lookup path saved.1 ≡ some json
    pub book_at : lookup book_path saved.1 ≡ some book

  -- The snapshot is new, the workbook is the old one.
  pub record JsonOnly : Type 0 where
    pub json : Text
    pub message : Text
    pub json_is : marshal_json s ≡ ok json
    pub failed_with : saved.0 ≡ err message
    pub json_at : lookup path saved.1 ≡ some json
    pub book_same : lookup book_path saved.1 ≡ lookup book_path disk

  -- Both files are as they were.
  pub record Neither : Type 0 where
    pub message : Text
    pub failed_with : saved.0 ≡ err message
    pub json_same : lookup path saved.1 ≡ lookup path disk
    pub book_same : lookup book_path saved.1 ≡ lookup book_path disk

  abbrev Outcome : Type 0
  Outcome = Both ⊎ JsonOnly ⊎ Neither

  neither : {e : Text} → saved ≡ (err e, disk) → Outcome
  neither {e} same = inr (
      inr (record {
        message = e;
        failed_with = ap (λ p. p.0) same;
        json_same = ap (λ p. lookup path p.1) same;
        book_same = ap (λ p. lookup book_path p.1) same;
      }))

  abbrev on_write : Text → Text → Text
  on_write p e = codes "inventory write " ++ p ++ codes ".tmp: " ++ e

  abbrev on_rename : Text → Text → Text
  on_rename p e = codes "inventory rename " ++ p ++ codes ": " ++ e

  -- The workbook, once the snapshot is written.
  with_book :
      (json : Text) (d : Disk)
      → marshal_json s ≡ ok json
      → lookup path d ≡ some json
      → lookup book_path d ≡ lookup book_path disk
      → (r : Result Text) → marshal_xlsx s ≡ r
      → saved ≡ save_workbook marshal_json marshal_xlsx path os' r d
      → Outcome
  with_book json d json_is at other (err e) h same = inr (
      inl (record {
        json = json;
        message = codes "inventory xlsx: " ++ e;
        json_is = json_is;
        failed_with = ap (λ p. p.0) same;
        json_at = ap (λ p. lookup path p.1) same ∙ at;
        book_same = ap (λ p. lookup book_path p.1) same ∙ other;
      }))
  with_book json d json_is at other (ok book) h same =
      let (result, apart) =
        write_rename_atomic (on_write book_path) (on_rename book_path) os' book_path book d in
      let json_at =
        ap (λ p. lookup path p.1) same
        ∙ apart path (λ e. xlsx_path_for-ne path (sym e))
            (λ e. tmp_of-xlsx_path_for-ne path (sym e))
        ∙ at in
      elim result [
        | inl (done, now) ↦ inl (record {
          json = json;
          book = book;
          json_is = json_is;
          book_is = h;
          succeeded = ap (λ p. p.0) same ∙ done;
          json_at = json_at;
          book_at = ap (λ p. lookup book_path p.1) same ∙ now;
        })
        | inr (e, failed_with, kept) ↦ inr (
            inl (record {
              json = json;
              message = e;
              json_is = json_is;
              failed_with = ap (λ p. p.0) same ∙ failed_with;
              json_at = json_at;
              book_same = ap (λ p. lookup book_path p.1) same ∙ kept ∙ other;
            }))
      ]

  after_json-ok :
      (w : Result (Unit {0}) × Disk)
      → w.0 ≡ ok tt
      → after_json marshal_json marshal_xlsx path os' s w
        ≡ save_workbook marshal_json marshal_xlsx path os' (marshal_xlsx s) w.1
  after_json-ok (ok _, d) h = refl
  after_json-ok (err e, d) h = cc

  after_json-err :
      (w : Result (Unit {0}) × Disk) {e : Text}
      → w.0 ≡ err e
      → after_json marshal_json marshal_xlsx path os' s w ≡ (err e, w.1)
  after_json-err (ok _, d) h = cc
  after_json-err (err e, d) h = ap (λ r. (r, d)) h

  with_json :
      (json : Text)
      → marshal_json s ≡ ok json
      → saved
        ≡ after_json marshal_json marshal_xlsx path os' s
            (write_rename (on_write path) (on_rename path) os path json disk)
      → Outcome
  with_json json json_is same =
      let (result, apart) =
        write_rename_atomic (on_write path) (on_rename path) os path json disk in
      let w = write_rename (on_write path) (on_rename path) os path json disk in
      let other = apart book_path (xlsx_path_for-ne path) (xlsx_path_for-ne-tmp_of path) in
      elim result [
        | inl (done, now) ↦
            with_book json w.1 json_is now other (marshal_xlsx s) refl (same ∙ after_json-ok w done)
        | inr (e, failed_with, kept) ↦
            let stopped = same ∙ after_json-err w failed_with in
            inr (
              inr (record {
                message = e;
                failed_with = ap (λ p. p.0) stopped;
                json_same = ap (λ p. lookup path p.1) stopped ∙ kept;
                book_same = ap (λ p. lookup book_path p.1) stopped ∙ other;
              }))
      ]

  saved-mkdir_failed :
      {e : Text} → mkdir_all os ≡ err e → saved ≡ (err (codes "inventory mkdir: " ++ e), disk)
  unfolding save_snapshot
  saved-mkdir_failed h = ground arith

  saved-mkdir :
      {u : Unit {0}} (r : Result Text)
      → mkdir_all os ≡ ok u
      → marshal_json s ≡ r
      → saved ≡ save_json marshal_json marshal_xlsx path os os' s r disk
  unfolding save_snapshot
  saved-mkdir r h k = ground arith

  -- `Save` replaces the snapshot and then the workbook, each whole or not at all: it succeeds exactly
  -- if both are new, and where it fails, the workbook is the old one, and the snapshot is the old
  -- one or, if it failed at the workbook, the new one.
  pub save_snapshot_atomic : Outcome
  save_snapshot_atomic = elim (Result-cases (mkdir_all os)) [
    | inr (e, h) ↦ neither (saved-mkdir_failed h)
    | inl (u, h) ↦ elim (Result-cases (marshal_json s)) [
      | inr (e, k) ↦ neither (saved-mkdir (err e) h k)
      | inl (json, k) ↦ with_json json k (saved-mkdir (ok json) h k)
    ]
  ]
