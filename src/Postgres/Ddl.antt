-- ===== src/Postgres/Ddl.antt =====
-- src-tauri/src/drivers/postgres/ddl.rs: the statement that makes a relation again. What the catalog
-- says of the relation is given; `pg_get_viewdef` and the like are texts in it.
pub mod Views
use data_looker.Prelude.{
  ℕ, Bool, true, false, not, ◌&&◌, Option, none, some, List, [], ◌∷◌, ◌++◌, ◌==◌, if◌then◌else◌,
  is_empty, map, flat_map,
}
use data_looker.Text.{Text, codes, trim_end, trim_end_matches, join}
use data_looker.Drivers.{NamedDefinition}
use data_looker.Postgres.Quote.{quote}

pub record Relation : Type 0 where
  pub relkind : ℕ
  pub persistence : ℕ
  pub populated : Bool
  -- The parent, and the bound.
  pub partition_of : Option (Text × Text)

pub record ColumnDefinition : Type 0 where
  pub name : Text
  pub type_name : Text
  pub not_null : Bool
  pub expression : Option Text
  pub identity : ℕ
  pub generated : Bool

unfoldable pub qualified : Text → Text → Text
unfolding quote
qualified schema table = quote schema ++ b'.' ∷ quote table

unfoldable pub create_view : Relation → Text → Text → Text → Text
unfolding trim_end trim_end_matches qualified
create_view relation schema table body =
    let materialized = relation.relkind == b'm' in
    (if materialized then codes "CREATE MATERIALIZED VIEW" else codes "CREATE VIEW")
    ++ (codes " "
        ++ (qualified schema table
            ++ (codes " AS\n"
                ++ (trim_end_matches (λ c. c == b';') (trim_end body)
                    ++ ((if materialized && not relation.populated
                          then codes "\nWITH NO DATA"
                          else [])
                        ++ codes ";")))))

unfoldable pub keyword : Relation → Text
keyword relation =
    if relation.relkind == b'f'
    then codes "CREATE FOREIGN TABLE"
    else (if relation.persistence == b'u'
        then codes "CREATE UNLOGGED TABLE"
        else (if relation.persistence == b't'
            then codes "CREATE TEMPORARY TABLE"
            else codes "CREATE TABLE"))

-- The `match` of `column` on its expression, on `generated` and on its identity.
unfoldable pub column_value : Option Text → Bool → ℕ → Text
column_value (some expression) true identity =
    codes " GENERATED ALWAYS AS (" ++ (expression ++ codes ") STORED")
column_value (some expression) false identity =
    if identity == b'a'
    then codes " GENERATED ALWAYS AS IDENTITY"
    else (if identity == b'd'
        then codes " GENERATED BY DEFAULT AS IDENTITY"
        else codes " DEFAULT " ++ expression)
column_value none generated identity =
    if identity == b'a'
    then codes " GENERATED ALWAYS AS IDENTITY"
    else (if identity == b'd' then codes " GENERATED BY DEFAULT AS IDENTITY" else [])

unfoldable pub column : ColumnDefinition → Text
unfolding quote column_value
column c =
    quote c.name
    ++ (codes " "
        ++ (c.type_name
            ++ ((if c.not_null then codes " NOT NULL" else [])
                ++ column_value c.expression c.generated c.identity)))

unfoldable pub constraint : NamedDefinition → Text
unfolding quote
constraint c = codes "CONSTRAINT " ++ (quote c.name ++ (codes " " ++ c.definition))

unfoldable pub create_table :
    Relation → Text → Text → List ColumnDefinition → List NamedDefinition → Option Text → Text
unfolding keyword column constraint qualified
create_table relation schema table columns constraints partition =
    let partition_by = elim partition as (λ x. Text) [
      | none ↦ []
      | some by ↦ codes " PARTITION BY " ++ by
    ] in
    let parts = map column columns ++ map constraint constraints in
    let body : Text =
      if is_empty parts
      then []
      else codes "\n    " ++ (join (codes ",\n    ") parts ++ codes "\n") in
    keyword relation
    ++ (codes " "
        ++ (qualified schema table ++ (elim relation.partition_of [
          | some (parent, bound) ↦
              codes " PARTITION OF "
              ++ (parent ++ (codes " " ++ (bound ++ (partition_by ++ codes ";"))))
          | none ↦ codes " (" ++ (body ++ (codes ")" ++ (partition_by ++ codes ";")))
        ])))

abbrev pub comment_kind : ℕ → Text
comment_kind relkind =
    if relkind == b'v'
    then codes "VIEW"
    else (if relkind == b'm'
        then codes "MATERIALIZED VIEW"
        else (if relkind == b'f' then codes "FOREIGN TABLE" else codes "TABLE"))

unfoldable pub comment_statement : ℕ → Text → Text → Option Text × Text → Text
unfolding quote qualified
comment_statement relkind schema table (some column, literal) =
    codes "COMMENT ON COLUMN "
    ++ (qualified schema table
        ++ (codes "." ++ (quote column ++ (codes " IS " ++ (literal ++ codes ";")))))
comment_statement relkind schema table (none, literal) =
    codes "COMMENT ON "
    ++ (comment_kind relkind
        ++ (codes " " ++ (qualified schema table ++ (codes " IS " ++ (literal ++ codes ";")))))

unfoldable pub comment_statements : ℕ → Text → Text → List (Option Text × Text) → List Text
unfolding comment_statement
comment_statements relkind schema table comments =
    map (comment_statement relkind schema table) comments

-- `definition`, with what the catalog answers: the body of a view, or the columns, the constraints
-- and the partition key of a table.
unfoldable pub definition :
    Relation
    → Text
    → Text
    → Text
    → List ColumnDefinition
    → List NamedDefinition
    → Option Text
    → List (Option Text × Text)
    → Text
unfolding create_view create_table comment_statements
definition relation schema table body columns constraints partition comments =
    let view = create_view relation schema table body in
    let made =
      create_table relation schema table columns constraints
        (if relation.relkind == b'p' then partition else none) in
    (if relation.relkind == b'v' then view else (if relation.relkind == b'm' then view else made))
    ++ flat_map (λ s. b'\n' ∷ s) (comment_statements relation.relkind schema table comments)
