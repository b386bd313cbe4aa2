-- ===== src/Backend/Statement/Cells.antt =====
-- That the values of a result are cells of the statement's answer, for `queryResultFromStatement` of
-- backend/backend.go.
use provider_databricks.Prelude.{
  Bool-cases, List, [], ◌∷◌, map, some, some≢none, some-injective, Text, text_eq, text_eq_iff, ◌≡◌,
  sym, ap, ◌⊎◌, inl, inr,
}
use provider_databricks.Query.Outcome.{Value, null, QueryColumn, Row, QueryTableResult, value_at}
use provider_databricks.Query.Outcome.Drawn.{Among, AreDrawn, IsDrawn}
use provider_databricks.Backend.Statement.{
  ManifestColumn, StatementResponse, column_type, row_from, query_result_from_statement,
}

abbrev column_of : ManifestColumn → QueryColumn
column_of column = record { name = column.name; type = column_type column }

-- The value stands at the place of a column of that name.
abbrev pub IsCell : Text → Value → List ManifestColumn → List Value → Type 0
IsCell key v [] values = ⊥
IsCell key v (column ∷ columns) [] = ⊥
IsCell key v (column ∷ columns) (value ∷ values) =
    ((column.name ≡ key) × (value ≡ v)) ⊎ IsCell key v columns values

-- The first rows of the data, each with its own cells, or null.
abbrev pub AreCells : List ManifestColumn → List (List Value) → List Row → Type 0
AreCells columns data' [] = Unit
AreCells columns [] (row ∷ rows) = ⊥
AreCells columns (values ∷ data') (row ∷ rows) =
    ((key : Text) (v : Value)
      → value_at key row ≡ some v
      → IsCell key v columns values ⊎ (v ≡ null))
    × AreCells columns data' rows

abbrev pub IsManifestColumn : QueryColumn → List ManifestColumn → Type 0
IsManifestColumn c [] = ⊥
IsManifestColumn c (column ∷ columns) =
    ((c.name ≡ column.name) × (c.type ≡ column_type column)) ⊎ IsManifestColumn c columns

row_from-IsCell :
    (row : Row) (columns : List ManifestColumn) (values : List Value) (key : Text) (v : Value)
    → value_at key (row_from row (map column_of columns) values) ≡ some v
    → IsCell key v columns values ⊎ (value_at key row ≡ some v)
unfolding row_from value_at
row_from-IsCell row [] values key v h = inr h
row_from-IsCell row (column ∷ columns) [] key v h = inr h
row_from-IsCell row (column ∷ columns) (value ∷ values) key v h =
    elim (row_from-IsCell ((column.name, value) ∷ row) columns values key v h) [
      | inl later ↦ inl (inr later)
      | inr there ↦ elim (Bool-cases (text_eq key column.name)) [
        | inl same ↦
            inl (
              inl (sym ((text_eq_iff key column.name).0 same), some-injective (rw (same) at there)))
        | inr other ↦ inr (rw (other) at there)
      ]
    ]

AreDrawn-AreCells :
    (columns : List ManifestColumn) (data' : List (List Value)) (rows : List Row)
    → AreDrawn (map (row_from [] (map column_of columns)) data') rows
    → AreCells columns data' rows
unfolding value_at
AreDrawn-AreCells columns data' [] h = tt
AreDrawn-AreCells columns [] (row ∷ rows) h = h
AreDrawn-AreCells columns (values ∷ data') (row ∷ rows) (drawn, later) = (
  (λ key v here. elim (drawn key v here) [
    | inr (missing, empty) ↦ inr empty
    | inl there ↦ elim (row_from-IsCell [] columns values key v there) [
      | inl cell ↦ inl cell
      | inr nowhere ↦ absurd (some≢none (sym nowhere))
    ]
  ]),
  AreDrawn-AreCells columns data' rows later,
)

Among-IsManifestColumn :
    (columns : List ManifestColumn) (c : QueryColumn)
    → Among c (map column_of columns)
    → IsManifestColumn c columns
Among-IsManifestColumn [] c h = h
Among-IsManifestColumn (column ∷ columns) c (inl here) =
    inl (ap (λ (x : QueryColumn). x.name) here, ap (λ (x : QueryColumn). x.type) here)
Among-IsManifestColumn (column ∷ columns) c (inr later) =
    inr (Among-IsManifestColumn columns c later)

-- A result that has nothing but what the answer of a statement has.
pub record HoldsAnswer (out : StatementResponse) (result : QueryTableResult) : Type 0 where
  pub manifest_columns : (c : QueryColumn) → Among c result.columns → IsManifestColumn c out.columns
  pub cells : AreCells out.columns out.data_array result.rows

pub IsDrawn-HoldsAnswer :
    (out : StatementResponse) (table_ref : Text) (result : QueryTableResult)
    → IsDrawn (query_result_from_statement out table_ref) result
    → HoldsAnswer out result
unfolding query_result_from_statement
IsDrawn-HoldsAnswer out table_ref result drawn = record {
  manifest_columns = λ c h. Among-IsManifestColumn out.columns c (drawn.own_columns c h);
  cells = AreDrawn-AreCells out.columns out.data_array result.rows drawn.own_rows;
}
