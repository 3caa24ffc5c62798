-- ===== src/Tests/Sheets.antt =====
-- internal/inventory: the files of a snapshot at concrete inputs.
use auto_cert.Base.Dict.{insert}
use auto_cert.Base.{some, ◌≡◌, ◌⊎◌, refl, none, [], ◌∷◌, list_eq, nat_eq}
use auto_cert.Base.Int.{pos}
use auto_cert.Base.Text.{Text, codes}
use auto_cert.Base.Result.{err, Result, ok}
use auto_cert.Files.{healthy}
use auto_cert.Inventory.{Snapshot, build}
use auto_cert.Inventory.FileSink.{xlsx_path_for}
use auto_cert.Inventory.FileSink.Outcome.{Both, JsonOnly, Neither, save_snapshot_atomic}
use auto_cert.Inventory.Workbook.{
  new_sheet, delete_sheet, set_active_sheet, new_style, set_cell_value, set_cell_style, set_panes,
  auto_filter, set_col_width, Excelize, marshal_xlsx, steps,
}
use auto_cert.Tests.Samples.{day, example_domain, www_domain, example_cert, example_info}

abbrev snapshot : Snapshot
snapshot =
    build (day (pos 95)) (example_domain ∷ www_domain ∷ []) (example_info ∷ []) (example_cert ∷ [])
      []

path_test : xlsx_path_for (codes "state/Inv.JSON") ≡ codes "state/Inv.xlsx"
unfolding xlsx_path_for
path_test = refl

abbrev path : Text
path = codes "state/inventory.json"

abbrev json : Snapshot → Result Text
json s = ok (codes "{}")

abbrev book : Snapshot → Result Text
book s = ok (codes "PK")

save_snapshot_atomic_example :
    Both json book path healthy healthy snapshot []
    ⊎ JsonOnly json book path healthy healthy snapshot []
    ⊎ Neither json book path healthy healthy snapshot []
save_snapshot_atomic_example = save_snapshot_atomic json book path healthy healthy snapshot []

-- A library whose calls all succeed.
abbrev sample_lib : Excelize
sample_lib = record {
  call_error = λ past call. none;
  bytes = λ calls. ok (codes "PK");
  cell_name = λ col row. codes "A1";
  format_date = λ t. codes "2026-01-02";
}

marshal_test : marshal_xlsx sample_lib snapshot ≡ ok (codes "PK")
unfolding marshal_xlsx steps build insert
marshal_test = refl

-- A library that cannot make a style: the fourth call fails.
abbrev styleless : Excelize
styleless = record sample_lib {
  call_error = λ past call. elim call [
    | new_sheet name ↦ none
    | delete_sheet name ↦ none
    | set_active_sheet ↦ none
    | new_style style ↦ some (codes "no style")
    | set_cell_value col row v ↦ none
    | set_cell_style a b c d style ↦ none
    | set_panes ↦ none
    | auto_filter col row ↦ none
    | set_col_width col w ↦ none
  ];
}

style_test : marshal_xlsx styleless snapshot ≡ err (codes "xlsx header style: no style")
unfolding marshal_xlsx steps
style_test = refl
