-- ===== src/Export/Shape.antt =====
-- What an export comes to, and the shape of its table.
use woodgate.Common.{
  sym, Text, codes, take, length, All, suc, ◌≡◌, refl, ap, ◌∙◌, ◌⊎◌, inl, inr, true, false, none,
  List, [], ◌∷◌, ◌++◌, map,
}
use woodgate.Common.Result.{Result, ok, Result-cases}
use woodgate.Upload.{Failure}
use woodgate.Export.{
  CsvValue, text, number, boolean, missing, ExportData, ExportColumn, ExportOptions, or_blank,
  ExportEffect, set_is_exporting, download, toast_failure, export_rows, column_data, export_data,
  export_csv,
}

abbrev pub IsPresent : CsvValue → Type 0
IsPresent value = or_blank value ≡ value

length-map {ℓ κ} :
    {A : Type ℓ} {B : Type κ} (f : A → B) (xs : List A) → length (map f xs) ≡ length xs
length-map f [] = refl
length-map f (x ∷ xs) = ap suc (length-map f xs)

or_blank_idem : (value : CsvValue) → or_blank (or_blank value) ≡ or_blank value
or_blank_idem (text t) = refl
or_blank_idem (number n) = refl
or_blank_idem (boolean b) = refl
or_blank_idem missing = refl

module _ {ℓ} {Row : Type ℓ} where
  present :
      (columns : List (ExportColumn Row)) (row : Row)
      → All IsPresent (map (λ c. or_blank (ExportColumn.value c row)) columns)
  present [] row = tt
  present (c ∷ columns) row = (or_blank_idem (c.value row), present columns row)

  rows-present :
      (columns : List (ExportColumn Row)) (rows : List Row)
      → All
          (λ cells.
            (length cells ≡ length (map (λ c. ExportColumn.header c) columns))
            × All IsPresent cells)
          (map (λ row. map (λ c. or_blank (ExportColumn.value c row)) columns) rows)
  rows-present columns [] = tt
  rows-present columns (row ∷ rows) = (
    (length-map _ columns ∙ sym (length-map _ columns), present columns row),
    rows-present columns rows,
  )

  -- Without a serializer of its own, an export has a line for each row and in each line a cell for
  -- each header, none of them missing.
  pub export_data-rectangular :
      (options : ExportOptions Row) (rows : List Row)
      → options.serialize_rows ≡ none
      → (length (export_data options rows).data_rows ≡ length rows)
        × All
            (λ cells.
              (length cells ≡ length (export_data options rows).fields) × All IsPresent cells)
            (export_data options rows).data_rows
  unfolding export_data column_data
  export_data-rectangular options rows plain =
      rw plain (length-map _ rows, rows-present options.columns rows)

  module _ (options : ExportOptions Row) (unparse : ExportData → Result Failure Text)
      (now : Text) where
    -- The effects of an export that is downloaded.
    abbrev pub saved : Text → List ExportEffect
    saved csv =
        set_is_exporting true
        ∷ download csv (options.filename ++ codes "-" ++ take 10 now ++ codes ".csv")
        ∷ set_is_exporting false
        ∷ []

    abbrev pub failed : List ExportEffect
    failed = set_is_exporting true ∷ toast_failure ∷ set_is_exporting false ∷ []

    -- An export ends with its button released. Where the rows are loaded and printed it has
    -- downloaded them, all of them or the selected ones, and in every other case it shows one toast.
    pub export_csv-ends :
        (selected filtered : List Row)
        → ((rows : List Row) × (csv : Text) × (export_rows options selected filtered ≡ ok rows)
            × (unparse (export_data options rows) ≡ ok csv)
            × (export_csv options unparse now selected filtered ≡ saved csv))
          ⊎ (export_csv options unparse now selected filtered ≡ failed)
    unfolding export_csv
    export_csv-ends selected filtered =
        elim (Result-cases (export_rows options selected filtered)) [
          | inl (rows, got) ↦ elim (Result-cases (unparse (export_data options rows))) [
            | inl (csv, made) ↦ inl (rows, csv, got, made, rw (got, made) refl)
            | inr (e, broken) ↦ inr (rw (got, broken) refl)
          ]
          | inr (e, lost) ↦ inr (rw lost refl)
        ]
