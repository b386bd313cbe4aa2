-- ===== src/Controller/Tables/Cache.antt =====
-- The schema cache over any history of edits of a table and passes of its reconciler. A status update
-- on an object that has changed meanwhile is refused by the API server, so a pass starts from the
-- object that it updates.
use provider_databricks.Prelude.{
  ℕ, suc, ◌≤◌, ◌==◌, true, false, List, [], none, some, Text, Result, ok, ◌≡◌, sym, ◌∙◌, ◌⊎◌, inl,
  inr, arith, length, length-take, ltb, subst, some-injective, Bool-cases, ==→eq, if◌then◌else◌,
  not_ltb→le,
}
use provider_databricks.Failure.{Failure}
use provider_databricks.Api.{Column, Table, TableSpec, Warehouse, Connection}
use provider_databricks.Shared.{ConditionApi, ClusterApi}
use provider_databricks.Query.Request.{max_query_columns}
use provider_databricks.Controller.Tables.{
  TableValidator, target_of, bounded_schema, reconcile_table,
}
use provider_databricks.Query.Targets.{TableTarget}
use provider_databricks.Controller.Tables.Readiness.{IsSettled, reconcile_table-IsSettled}

-- At most 64 columns are cached: a prefix of those that were found.
pub length-bounded_schema :
    (found : List Column) → length (bounded_schema found).columns ≤ max_query_columns
unfolding bounded_schema
length-bounded_schema found = elim (Bool-cases (ltb max_query_columns (length found))) [
  | inl long ↦ rw long (omega (arith, length-take max_query_columns found))
  | inr short ↦ rw short (not_ltb→le _ _ short)
]

-- `IsSchemaOf spec found`: what is known of the columns that a validator finds for a table.
module _ (quote to_upper : Text → Text) (kube : ConditionApi)
    (IsSchemaOf : TableSpec → List Column → Type 0) where
  -- The validator answers for the names in the spec.
  abbrev pub IsTrusted : TableValidator → Type 0
  IsTrusted validator =
      (v : TableTarget → Result Failure (List Column)) (tbl : Table) (wh : Warehouse)
      (conn : Connection) (token : Text) (found : List Column)
      → validator ≡ some v
      → v (target_of tbl wh conn token) ≡ ok found
      → IsSchemaOf tbl.spec found

  pub data Step : Table → Table → Type 0 where
    edit :
        (t : Table) (spec : TableSpec)
        → Step t (record t { spec = spec; generation = suc t.generation })
    pass :
        {t t' : Table} (now : ℕ) (validator : TableValidator) (api : ClusterApi) (key : Text)
        → IsTrusted validator
        → api.get_table key ≡ ok t
        → t.deletion_timestamp ≡ none
        → (reconcile_table kube quote to_upper now validator api key).updated ≡ some t'
        → Step t t'

  pub data Reach (start : Table) : Table → Type 0 where
    here : Reach start start
    next : {t u : Table} → Reach start t → Step t u → Reach start u

  -- The cached columns belong to the spec wherever they may be read: where the observed generation
  -- is the current one.
  pub record IsCached (t : Table) : Type 0 where
    pub past : t.status.observed_generation ≤ t.generation
    pub few : length t.status.columns ≤ max_query_columns
    pub current :
        t.status.observed_generation ≡ t.generation
        → (t.status.columns ≡ [])
          ⊎ ((found : List Column) × IsSchemaOf t.spec found
              × (t.status.columns ≡ (bounded_schema found).columns))

  settled-IsCached :
      (now : ℕ) (validator : TableValidator) (api : ClusterApi) (t t' : Table)
      → IsTrusted validator
      → IsSettled quote kube now validator api t t'
      → IsCached t
      → IsCached t'
  settled-IsCached now validator api t t' trusted s c = elim s.verdict [
    | inl (found, a, columns, _, _) ↦ record {
      past = omega (arith, s.observed, s.generation);
      few = subst (λ cs. length cs ≤ max_query_columns) (sym columns) (length-bounded_schema found);
      current = λ _. inr (
        found,
        subst (λ spec. IsSchemaOf spec found) (sym s.spec)
            (trusted a.validate_table t a.wh a.conn a.token found a.configured a.accepted),
        columns,
      );
    }
    | inr (_, columns, _, _) ↦
        kept (Bool-cases (t.status.observed_generation == t.generation)) columns
  ]
    where
      kept :
          ((t.status.observed_generation == t.generation) ≡ true)
            ⊎ ((t.status.observed_generation == t.generation) ≡ false)
          → t'.status.columns
            ≡ (if t.status.observed_generation == t.generation then t.status.columns else [])
          → IsCached t'
      kept (inl same) columns =
          let stays : t'.status.columns ≡ t.status.columns = rw same at columns in
          record {
            past = omega (arith, s.observed, s.generation);
            few = subst (λ cs. length cs ≤ max_query_columns) (sym stays) c.few;
            current = λ _. elim (c.current (==→eq _ _ same)) [
              | inl empty ↦ inl (stays ∙ empty)
              | inr (found, known, cached) ↦
                  inr (
                    found,
                    subst (λ spec. IsSchemaOf spec found) (sym s.spec) known,
                    stays ∙ cached,
                  )
            ];
          }
      kept (inr other) columns =
          let cleared : t'.status.columns ≡ [] = rw other at columns in
          record {
            past = omega (arith, s.observed, s.generation);
            few = subst (λ cs. length cs ≤ max_query_columns) (sym cleared) (omega arith);
            current = λ _. inl cleared;
          }

  Step-IsCached : {t t' : Table} → Step t t' → IsCached t → IsCached t'
  Step-IsCached (edit t spec) c = record {
    past = omega (arith, c.past);
    few = c.few;
    current = λ e. absurd (omega (arith, c.past));
  }
  Step-IsCached (pass {t} {t'} now validator api key trusted got live updated) c =
      let (t'', written, settled) =
        reconcile_table-IsSettled quote to_upper kube now validator api key t got live in
      let same : t'' ≡ t' = some-injective (sym written ∙ updated) in
      subst IsCached same (settled-IsCached now validator api t t'' trusted settled c)

  -- After any history of edits and passes from a new table, at most 64 columns are cached; and where
  -- the observed generation is the current one, they are none, or the bounded schema that a
  -- validator found for the table's present spec.
  pub Reach-IsCached :
      (start t : Table)
      → start.status.observed_generation ≤ start.generation
      → start.status.columns ≡ []
      → Reach start t
      → IsCached t
  Reach-IsCached start t past empty here = record {
    past = past;
    few = subst (λ cs. length cs ≤ max_query_columns) (sym empty) (omega arith);
    current = λ _. inl empty;
  }
  Reach-IsCached start t past empty (next {t = u} r step) =
      Step-IsCached step (Reach-IsCached start u past empty r)
