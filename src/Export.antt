-- ===== src/Export.antt =====
-- web/src/components/data-table/data-table-export.tsx. `unparse` is papaparse's, which prints the
-- table as CSV or throws; `Row` is what the rows of the table hold.
pub mod Shape
use woodgate.Common.{
  Text, codes, take, Bool, true, false, Option, none, some, List, [], ◌∷◌, ◌++◌, map, some_or,
}
use woodgate.Common.Number.{Number}
use woodgate.Common.Result.{Result, ok, err}
use woodgate.Upload.{Failure}

pub data CsvValue : Type 0 where
  text : Text → CsvValue
  number : Number → CsvValue
  boolean : Bool → CsvValue
  missing : CsvValue  -- `null` or `undefined`

pub record ExportData : Type 0 where
  pub fields : List Text
  pub data_rows : List (List CsvValue)

module _ {ℓ} (Row : Type ℓ) where
  pub record ExportColumn : Type ℓ where
    pub header : Text
    pub value : Row → CsvValue

  pub record ExportOptions : Type ℓ where
    pub filename : Text
    pub columns : List ExportColumn
    pub load_rows : Option (Result Failure (List Row))  -- what `loadRows()` comes to
    pub serialize_rows : Option (List Row → ExportData)

-- `value ?? ""`
abbrev pub or_blank : CsvValue → CsvValue
or_blank missing = text []
or_blank value = value

-- What the button does that is seen from outside.
pub data ExportEffect : Type 0 where
  set_is_exporting : Bool → ExportEffect
  download : (csv filename : Text) → ExportEffect
  toast_failure : ExportEffect

module _ {ℓ} {Row : Type ℓ} (options : ExportOptions Row) where
  -- `rows`: the selected ones, or all of them.
  unfoldable pub export_rows : (selected filtered : List Row) → Result Failure (List Row)
  export_rows [] filtered = some_or options.load_rows (ok filtered)
  export_rows (row ∷ selected) filtered = ok (row ∷ selected)

  unfoldable pub column_data : List Row → ExportData
  column_data rows = record {
    fields = map (λ c. ExportColumn.header c) options.columns;
    data_rows = map (λ row. map (λ c. or_blank (ExportColumn.value c row)) options.columns) rows;
  }

  unfoldable pub export_data : List Row → ExportData
  export_data rows = elim options.serialize_rows [
    | none ↦ column_data rows
    | some serialize ↦ serialize rows
  ]

  module _ (unparse : ExportData → Result Failure Text) (now : Text) where
    abbrev pub printed : Result Failure Text → List ExportEffect
    printed (ok csv) =
        download csv (options.filename ++ codes "-" ++ take 10 now ++ codes ".csv") ∷ []
    printed (err e) = toast_failure ∷ []

    abbrev pub loaded : Result Failure (List Row) → List ExportEffect
    loaded (ok rows) = printed (unparse (export_data rows))
    loaded (err e) = toast_failure ∷ []

    -- `exportCSV`; `now` is `new Date().toISOString()`.
    unfoldable pub export_csv : (selected filtered : List Row) → List ExportEffect
    unfolding export_rows
    export_csv selected filtered =
        set_is_exporting true ∷ loaded (export_rows selected filtered)
        ++ set_is_exporting false ∷ []
