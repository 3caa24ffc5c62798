-- ===== src/Inventory/FileSink.antt =====
-- internal/inventory/file_sink.go: the snapshot in a JSON file, with a workbook beside it.
pub mod Outcome
use auto_cert.Base.{
  Bool, true, false, List, [], ◌∷◌, ◌++◌, ◌-◌, list_eq, nat_eq, if◌then◌else◌, length, take,
}
use auto_cert.Base.Text.{Text, codes, to_lower, has_suffix}
use auto_cert.Base.Result.{Result, ok, err}
use auto_cert.Files.{Disk, Os, mkdir_all, write_rename}
use auto_cert.Inventory.{Snapshot}

-- `xlsxPathFor`
unfoldable pub xlsx_path_for : Text → Text
unfolding to_lower has_suffix
xlsx_path_for path =
    if has_suffix (to_lower path) (codes ".json")
    then take (length path - 5) path ++ codes ".xlsx"
    else path ++ codes ".xlsx"

-- `writeAtomic`
abbrev pub write_atomic : Os → Text → Text → Disk → Result (Unit {0}) × Disk
write_atomic os path text disk =
    write_rename (λ e. codes "inventory write " ++ path ++ codes ".tmp: " ++ e)
      (λ e. codes "inventory rename " ++ path ++ codes ": " ++ e) os path text disk

module _ (marshal_json marshal_xlsx : Snapshot → Result Text) (path : Text) where
  -- `Save` from the workbook on.
  abbrev pub save_workbook : Os → Result Text → Disk → Result (Unit {0}) × Disk
  save_workbook os (err e) disk = (err (codes "inventory xlsx: " ++ e), disk)
  save_workbook os (ok book) disk = write_atomic os (xlsx_path_for path) book disk

  -- `Save` from the first write on, by its result.
  abbrev pub after_json : Os → Snapshot → Result (Unit {0}) × Disk → Result (Unit {0}) × Disk
  after_json os s (err e, disk) = (err e, disk)
  after_json os s (ok _, disk) = save_workbook os (marshal_xlsx s) disk

  abbrev pub save_json : Os → Os → Snapshot → Result Text → Disk → Result (Unit {0}) × Disk
  save_json os os' s (err e) disk = (err (codes "inventory marshal: " ++ e), disk)
  save_json os os' s (ok text) disk = after_json os' s (write_atomic os path text disk)

  -- `FileSink.Save`; the second answers are those to the calls for the workbook.
  unfoldable pub save_snapshot : Os → Os → Snapshot → Disk → Result (Unit {0}) × Disk
  save_snapshot os os' s disk = elim (mkdir_all os) [
    | err e ↦ (err (codes "inventory mkdir: " ++ e), disk)
    | ok _ ↦ save_json os os' s (marshal_json s) disk
  ]
