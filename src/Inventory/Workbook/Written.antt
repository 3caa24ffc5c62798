-- ===== src/Inventory/Workbook/Written.antt =====
-- The result of `MarshalXLSX`: the workbook of its calls, or the error of the first that fails.
use mathlib.Core.List.{map}
use auto_cert.Base.Result.{err, Result, ◌>>=◌, wrap}
use auto_cert.Base.{◌≡◌, none, some, List, [], ◌∷◌, ◌++◌, list_eq, nat_eq}
use auto_cert.Base.Text.{Text, codes}
use auto_cert.Model.{Error}
use auto_cert.Inventory.Workbook.{
  Call, Step, Excelize, new_sheet, delete_sheet, set_active_sheet, new_style, set_cell_value,
  set_cell_style, set_panes, auto_filter, set_col_width,
}
use auto_cert.Base.Result.{err, Result, ◌>>=◌}

abbrev pub calls_of : List Step → List Call
calls_of = map (λ (s : Step). s.1)

module _ (lib : Excelize) where
  -- The error that a call returns behind earlier calls; `SetActiveSheet` returns none.
  abbrev pub error_from : List Call → Call → Error
  error_from past set_active_sheet = none
  error_from past (new_sheet name) = lib.call_error past (new_sheet name)
  error_from past (delete_sheet name) = lib.call_error past (delete_sheet name)
  error_from past (new_style style) = lib.call_error past (new_style style)
  error_from past (set_cell_value col row v) = lib.call_error past (set_cell_value col row v)
  error_from past (set_cell_style a b c d style) =
      lib.call_error past (set_cell_style a b c d style)
  error_from past set_panes = lib.call_error past set_panes
  error_from past (auto_filter col row) = lib.call_error past (auto_filter col row)
  error_from past (set_col_width col w) = lib.call_error past (set_col_width col w)

  -- Each of the calls, behind those in front of it, returns no error.
  abbrev pub AllSucceed : List Call → List Step → Type 0
  AllSucceed past [] = Unit {0}
  AllSucceed past (s ∷ ss) = (error_from past s.1 ≡ none) × AllSucceed (past ++ s.1 ∷ []) ss

  -- The first call that fails, with its words and its error: those in front of it succeed, and the
  -- result is its error.
  pub record StopsAt (done : List Call) (ss : List Step) (result : Result Text) : Type 0 where
    pub past : List Step
    pub step : Step
    pub later : List Step
    pub message : Text
    pub split_at : ss ≡ past ++ step ∷ later
    pub past_succeed : AllSucceed done past
    pub failed : error_from (done ++ calls_of past) step.1 ≡ some message
    pub returned : result ≡ err (step.0 ++ message)

  abbrev finished : Result (List Call) → Result Text
  finished r = r >>= λ calls. wrap (λ e. codes "xlsx write: " ++ e) (lib.bytes calls)
