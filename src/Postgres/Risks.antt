-- ===== src/Postgres/Risks.antt =====
-- src-tauri/src/drivers/postgres/risks.rs: what in a text is easy to regret, read from a parse tree.
-- `pg_query`, which makes the tree and walks it, is not modelled: its nodes are data with what the
-- source reads of them, and its parser and its `nodes` are parameters.
mod Asked
mod Tests
use data_looker.Prelude.{
  ℕ, ◌+◌, ◌-◌, ◌≡◌, Bool, true, false, not, ◌&&◌, ◌||◌, Option, none, some, List, [], ◌∷◌, ◌++◌,
  ◌==◌, if◌then◌else◌, any, is_empty, filter_map, flat_map, map, length, leb, take, drop,
}
use data_looker.Text.{Text, codes, text_eq, trim, join}
use data_looker.Text.Utf8.{as_bytes, from_utf8}
use data_looker.Map.{is_some}
use data_looker.Drivers.{
  Hazard, Risk, delete_without_where, update_without_where, drop_object, truncate, drop_column,
  dynamic, write,
}
use mathlib.Core.Option

pub record RangeVar : Type 0 where
  pub schemaname : Text
  pub relname : Text

-- The argument of an option of an `EXPLAIN`.
pub data Argument : Type 0 where
  boolean : Bool → Argument
  word : Text → Argument
  zero_integer other_integer other_argument : Argument

-- One name of a drop, and of a truncate.
pub data Named : Type 0 where
  range : RangeVar → Named
  one_name : Text → Named
  -- An item that is not a string is none.
  parts : List (Option Text) → Named
  otherwise_named : Named

-- A command of an `ALTER TABLE`: whether it drops a column, and the name.
pub record AlterCommand : Type 0 where
  pub drops_column : Bool
  pub name : Text

-- A table, where there is one, and whether there is a `WHERE`.
pub data Node : Type 0 where
  insert_statement merge_statement create_statement : Option RangeVar → Node
  update_statement delete_statement : Option RangeVar → Bool → Node
  -- The table that it writes into, within the clause that says so.
  select_statement create_table_as : Option (Option RangeVar) → Node
  -- Whether it is `FROM`.
  copy_statement : Option RangeVar → Bool → Node
  -- The options that are a name and what it is given.
  explain_statement : List (Text × Option Argument) → Node
  show_statement set_statement transaction_statement declare_statement : Node
  fetch_statement close_statement listen_statement unlisten_statement : Node
  execute_statement do_statement : Node
  truncate_statement drop_statement : List Named → Node
  drop_database : Text → Node
  alter_table : Option RangeVar → List AlterCommand → Node
  -- Of what it prepares, when that was parsed.
  prepare_statement : Node → Node
  prepare_nothing : Node
  other_node : Node

-- A parsed statement: the node, and where it stands, an offset below 0 as 0 and a length of 0 or
-- less as none.
pub record RawStatement : Type 0 where
  pub node : Option Node
  pub location : ℕ
  pub len : Option ℕ

unfoldable pub relation : RangeVar → Text
relation r = if is_empty r.schemaname then r.relname else r.schemaname ++ (codes "." ++ r.relname)

-- `collect` into an option.
unfoldable pub all_parts : List (Option Text) → Option (List Text)
all_parts [] = some []
all_parts (none ∷ ps) = none
all_parts (some p ∷ ps) = Option.map (λ rest. p ∷ rest) (all_parts ps)

unfoldable pub named : Named → Option Text
unfolding relation all_parts
named (range r) = some (relation r)
named (one_name n) = some n
named (parts ps) = Option.map (join (codes ".")) (all_parts ps)
named otherwise_named = none

unfoldable pub carries_out : Option Argument → Bool
carries_out none = true
carries_out (some (boolean on)) = on
carries_out (some (word w)) = not (text_eq w (codes "false") || text_eq w (codes "off"))
carries_out (some zero_integer) = false
carries_out (some other_integer) = true
carries_out (some other_argument) = true

unfoldable pub only_plans : Node → Bool
unfolding carries_out
only_plans (explain_statement options) =
    not (
      any (λ (o : Text × Option Argument). text_eq o.0 (codes "analyze") && carries_out o.1)
        options)
only_plans _ = false

unfoldable pub prepared : Node → Node
prepared (prepare_statement query) = query
prepared node = node

unfoldable pub writes : Node → Bool
writes (insert_statement r) = true
writes (update_statement r w) = true
writes (delete_statement r w) = true
writes (merge_statement r) = true
writes (create_table_as into) = true
writes (select_statement into) = is_some into
writes _ = false

unfoldable pub table_of : Node → Option RangeVar
table_of (insert_statement r) = r
table_of (update_statement r w) = r
table_of (delete_statement r w) = r
table_of (merge_statement r) = r
table_of (create_statement r) = r
table_of (alter_table r cs) = r
table_of (create_table_as (some into)) = into
table_of (select_statement (some into)) = into
table_of (copy_statement r true) = r
table_of _ = none

unfoldable pub listed : Option RangeVar → List Text
unfolding relation
listed none = []
listed (some r) = relation r ∷ []

abbrev pub dropped_column : Option RangeVar → AlterCommand → Option Text
unfolding relation
dropped_column table c =
    if c.drops_column
    then some (elim table [ none ↦ c.name | some t ↦ relation t ++ (codes "." ++ c.name) ])
    else none

abbrev pub Found : Type 0
Found = Hazard × List Text

unfoldable pub hazard : Node → Option Found
unfolding named listed dropped_column
hazard execute_statement = some (dynamic, [])
hazard do_statement = some (dynamic, [])
hazard (delete_statement r false) = some (delete_without_where, listed r)
hazard (update_statement r false) = some (update_without_where, listed r)
hazard (truncate_statement names) = some (truncate, filter_map named names)
hazard (drop_statement names) = some (drop_object, filter_map named names)
hazard (drop_database name) = some (drop_object, name ∷ [])
hazard (alter_table table commands) =
    let columns = filter_map (dropped_column table) commands in
    if is_empty columns then none else some (drop_column, columns)
hazard _ = none

unfoldable pub reads_alone : Node → Bool
reads_alone (select_statement into) = not (is_some into)
reads_alone (copy_statement r is_from) = not is_from
reads_alone (explain_statement options) = true
reads_alone show_statement = true
reads_alone set_statement = true
reads_alone transaction_statement = true
reads_alone declare_statement = true
reads_alone fetch_statement = true
reads_alone close_statement = true
reads_alone listen_statement = true
reads_alone unlisten_statement = true
reads_alone _ = false

-- The tables once each, in the order they are named.
unfoldable pub once : List Text → List Text → List Text
once tables [] = tables
once tables (t ∷ ts) =
    let without = once tables ts in
    let pushed = once (tables ++ t ∷ []) ts in if any (text_eq t) tables then without else pushed

-- `sql.get(start..end)`, by bytes: none past the end, or where either end is inside a character.
unfoldable pub slice : Text → ℕ → ℕ → Option Text
slice sql start end =
    let bytes = as_bytes sql in
    if leb start end && leb end (length bytes)
    then from_utf8 (take (end - start) (drop start bytes))
    else none

unfoldable pub text_of : Text → RawStatement → Text
unfolding slice
text_of sql raw =
    let end = elim raw.len as (λ x. ℕ) [
      | none ↦ length (as_bytes sql)
      | some l ↦ raw.location + l
    ] in
    elim (slice sql raw.location end) [ none ↦ trim sql | some t ↦ trim t ]

abbrev pub as_risk : Text → Found → Risk
as_risk text f = record { statement = text; hazard = f.0; targets = f.1 }

module _ (nodes : Node → List Node) where
  unfoldable pub reads : Node → Bool
  unfolding reads_alone only_plans writes
  reads node = reads_alone node && (only_plans node || not (any writes (nodes node)))

  unfoldable pub written : Node → List Text
  unfolding once table_of relation
  written node = once [] (filter_map (λ n. Option.map relation (table_of n)) (nodes node))

  -- What a statement is asked about, none of it being planned only.
  unfoldable pub found : Bool → Node → List Found
  unfolding hazard reads written
  found production node =
      let hazards = filter_map hazard (nodes node) in
      if production && (is_empty hazards && not (reads node))
      then hazards ++ (write, written node) ∷ []
      else hazards

  unfoldable pub statement_risks : Bool → Text → Node → List Risk
  unfolding found only_plans prepared
  statement_risks production text node =
      if only_plans node then [] else map (as_risk text) (found production (prepared node))

  unfoldable pub raw_risks : Bool → Text → RawStatement → List Risk
  unfolding statement_risks text_of
  raw_risks production sql raw = elim raw.node [
    | none ↦ []
    | some node ↦ statement_risks production (text_of sql raw) node
  ]

  unfoldable pub risks : (parse : Text → Option (List RawStatement)) → Text → Bool → List Risk
  unfolding raw_risks
  risks parse sql production = elim (parse sql) [
    | none ↦ []
    | some parsed ↦ flat_map (raw_risks production sql) parsed
  ]
