-- ===== src/Query/Sql/Parsing.antt =====
-- The SQL builder of queryapi/query.go against the reader.
use provider_databricks.Prelude.{
  ℕ, zero, suc, ◌+◌, ◌≤◌, false, not, ◌&&◌, List, [], ◌∷◌, ◌++◌, none, some, Text, runes, is_empty,
  map, ◌≡◌, refl, sym, ap, ◌∙◌, arith, append_assoc, All, length, contains, contains_iff, IsIn, ℤ,
  pos, negsuc, itoa_int, join, ok, >>=-eq-ok, reject_if-eq-ok, ok-injective, ◌⊎◌, inl, inr,
  not_ltb→le, true_of_not, false≢true, ap₂,
}
use provider_databricks.Query.Identifier.Quoting.{IsIdentifier, quoted, quote_ident_sound}
use provider_databricks.Query.Errors.{QueryError}
use provider_databricks.Query.Request.{max_query_columns, default_limit, limit_rejected}
use provider_databricks.Query.Request.Controls.{
  Distinct, IsProjection, IsLimit, Avoids, Avoids-tail,
}
use provider_databricks.Query.Sql.{
  TableRef, quoted_or, qualified_table, allowed_set, select_parts, select_list, select_table_sql,
}
use provider_databricks.Query.Sql.Reader.{
  strip, read_projection, read_number, read_table, read_select,
}
use provider_databricks.Query.Sql.Reading.{
  IsPlain, read_ident-quoted, read_columns-join, limit_text, read_projection-star,
  read_projection-columns,
}

quoted_or_sound :
    (value q : Text) (e : QueryError)
    → quoted_or value e ≡ ok q
    → IsIdentifier value × (q ≡ quoted value)
quoted_or_sound value q e h = quote_ident_sound value q (ground arith)

abbrev qualified : TableRef → Text → Text
qualified ref rest =
    quoted ref.catalog
    ++ (runes "." ++ (quoted ref.schema ++ (runes "." ++ (quoted ref.table ++ rest))))

-- The three parts of a table's name are identifiers.
pub record IsTable (ref : TableRef) : Type 0 where
  pub catalog : IsIdentifier ref.catalog
  pub schema : IsIdentifier ref.schema
  pub table : IsIdentifier ref.table

pub qualified_table_sound :
    (ref : TableRef) (from : Text)
    → qualified_table ref ≡ ok from
    → IsTable ref × ((rest : Text) → from ++ rest ≡ qualified ref rest)
unfolding qualified_table
qualified_table_sound ref from h =
    let (a, ha, h1) = >>=-eq-ok _ _ h in
    let (b, hb, h2) = >>=-eq-ok _ _ h1 in
    let (c, hc, h3) = >>=-eq-ok _ _ h2 in
    let (ia, ea) = quoted_or_sound ref.catalog a _ ha in
    let (ib, eb) = quoted_or_sound ref.schema b _ hb in
    let (ic, ec) = quoted_or_sound ref.table c _ hc in
    (
      record { catalog = ia; schema = ib; table = ic },
      λ rest. rw (← ok-injective h3, ea, eb, ec) (simp append_assoc),
    )

read_table-qualified :
    (ref : TableRef) (rest : Text)
    → IsPlain rest
    → read_table (qualified ref rest) ≡ some (ref, rest)
unfolding read_table
read_table-qualified ref rest p = rw (
  read_ident-quoted ref.catalog
      (runes "." ++ (quoted ref.schema ++ (runes "." ++ (quoted ref.table ++ rest)))) refl,
  read_ident-quoted ref.schema (runes "." ++ (quoted ref.table ++ rest)) refl,
  read_ident-quoted ref.table rest p,
)

abbrev IsAllowed : List Text → List Text → Type 0
IsAllowed allowed = All (λ c. (allowed ≡ []) ⊎ IsIn c allowed)

is_allowed :
    (c : Text) (allowed : List Text)
    → (not (is_empty allowed) && not (contains c allowed)) ≡ false
    → (allowed ≡ []) ⊎ IsIn c allowed
is_allowed c [] h = inl refl
is_allowed c (a ∷ allowed) h = inr ((contains_iff c (a ∷ allowed)).0 (true_of_not h))

select_parts_sound :
    (allowed : List Text) (i : ℕ) (seen cs parts : List Text)
    → select_parts allowed i seen cs ≡ ok parts
    → (parts ≡ map quoted cs)
      × All IsIdentifier cs
      × Distinct cs
      × Avoids seen cs
      × IsAllowed allowed cs
unfolding select_parts
select_parts_sound allowed i seen [] parts h = (sym (ok-injective h), tt, tt, tt, tt)
select_parts_sound allowed i seen (c ∷ cs) parts h =
    let (part, quoting, h1) = >>=-eq-ok _ _ h in
    let (inside, h2) = reject_if-eq-ok _ _ _ h1 in
    let (fresh, h3) = reject_if-eq-ok _ _ _ h2 in
    let (rest, looped, h4) = >>=-eq-ok _ _ h3 in
    let (same, ids, distinct, avoids, allows) =
      select_parts_sound allowed (i + 1) (c ∷ seen) cs rest looped in
    let (avoids', apart) = Avoids-tail c seen cs avoids in
    let (id, q) = quoted_or_sound c part _ quoting in
    let unseen : ¬ (IsIn c seen) = λ m. false≢true (sym fresh ∙ (contains_iff c seen).1 m) in
    (
      sym (ok-injective h4) ∙ ap₂ (λ a b. a ∷ b) q same,
      (id, ids),
      (apart, distinct),
      (unseen, avoids'),
      (is_allowed c allowed inside, allows),
    )

select_list_sound :
    (allowed projection : List Text) (list rest : Text)
    → length projection ≤ max_query_columns
    → select_list allowed projection ≡ ok list
    → IsPlain rest
    → strip (runes ", ") rest ≡ none
    → (read_projection (list ++ rest) ≡ some (projection, rest))
      × All IsIdentifier projection
      × Distinct projection
      × IsAllowed allowed projection
unfolding select_list
select_list_sound allowed [] list rest few h p e = (
  ap (λ l. read_projection (l ++ rest)) (sym (ok-injective h)) ∙ read_projection-star rest,
  tt,
  tt,
  tt,
)
select_list_sound allowed (c ∷ cs) list rest few h p e =
    let (parts, looped, h1) = >>=-eq-ok _ _ h in
    let (same, ids, distinct, avoids, allows) =
      select_parts_sound allowed 0 [] (c ∷ cs) parts looped in
    (
      ap (λ l. read_projection (l ++ rest)) (sym (ok-injective h1))
          ∙ ap (λ ps. read_projection (join (runes ", ") ps ++ rest)) same
          ∙ read_projection-columns c cs rest
          ∙ read_columns-join max_query_columns c cs rest few p e,
      ids,
      distinct,
      allows,
    )

-- The number that stands in the statement: 0 asks for the default.
abbrev pub asked_limit : ℤ → ℕ
asked_limit (pos zero) = 100
asked_limit (pos (suc n)) = suc n
asked_limit (negsuc n) = 0

IsLimit-read :
    (limit : ℤ)
    → limit_rejected (default_limit limit) ≡ false
    → IsLimit limit × (read_number (itoa_int (default_limit limit)) ≡ some (asked_limit limit))
unfolding itoa_int
IsLimit-read (pos zero) h = (omega arith, limit_text 100 (omega arith))
IsLimit-read (pos (suc n)) h =
    let small : suc n ≤ 100 = ground arith in (small, limit_text (suc n) small)
IsLimit-read (negsuc n) h = cc

-- What a statement that was built says and may name.
pub record IsSelect (ref : TableRef) (projection : List Text) (limit : ℤ) (allowed : List Text)
    (sql : Text) : Type 0 where
  pub reads_back :
      read_select sql
      ≡ some (record { projection = projection; from = ref; limit = asked_limit limit })
  pub table : IsTable ref
  pub columns : IsProjection projection
  pub limited : IsLimit limit
  pub allows : IsAllowed (allowed_set allowed) projection

read_select-statement :
    (list : Text) (ref : TableRef) (projection : List Text) (limit : Text) (n : ℕ)
    → read_projection (list ++ (runes " FROM " ++ qualified ref (runes " LIMIT " ++ limit)))
      ≡ some (projection, runes " FROM " ++ qualified ref (runes " LIMIT " ++ limit))
    → read_number limit ≡ some n
    → read_select
        (runes "SELECT " ++ (list ++ (runes " FROM " ++ qualified ref (runes " LIMIT " ++ limit))))
      ≡ some (record { projection = projection; from = ref; limit = n })
unfolding read_select
read_select-statement list ref projection limit n h k =
    rw (h, read_table-qualified ref (runes " LIMIT " ++ limit) refl, k)

-- The statement that the builder returns is a single SELECT with exactly the columns, the table and
-- the limit that were asked for, whatever characters the names hold; and these are within the
-- contract and, where a schema is known, within the schema.
pub select_table_sql-IsSelect :
    (ref : TableRef) (projection : List Text) (limit : ℤ) (allowed : List Text) (sql : Text)
    → select_table_sql ref projection limit allowed ≡ ok sql
    → IsSelect ref projection limit allowed sql
unfolding select_table_sql strip
select_table_sql-IsSelect ref projection limit allowed sql h =
    let (bounded, h1) = reject_if-eq-ok _ _ _ h in
    let (few, h2) = reject_if-eq-ok _ _ _ h1 in
    let (from, qualifying, h3) = >>=-eq-ok _ _ h2 in
    let (list, listing, h4) = >>=-eq-ok _ _ h3 in
    let (limited, number) = IsLimit-read limit bounded in
    let (table, regroup) = qualified_table_sound ref from qualifying in
    let tail : Text = runes " LIMIT " ++ itoa_int (default_limit limit) in
    let (reads, ids, distinct, allows) =
      select_list_sound (allowed_set allowed) projection list (runes " FROM " ++ qualified ref tail)
        (not_ltb→le _ _ few) listing refl refl in
    record {
      reads_back =
          (ap read_select (
              sym (ok-injective h4)
              ∙ ap (λ t. runes "SELECT " ++ (list ++ (runes " FROM " ++ t))) (regroup tail))
            ∙ read_select-statement list ref projection (itoa_int (default_limit limit))
                (asked_limit limit) reads number);
      table = table;
      columns = record { few = not_ltb→le _ _ few; identifiers = ids; distinct = distinct };
      limited = limited;
      allows = allows;
    }
