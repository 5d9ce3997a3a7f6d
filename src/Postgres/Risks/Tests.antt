-- ===== src/Postgres/Risks/Tests.antt =====
-- The risks of a concrete tree: a `DELETE` inside a `WITH`, whose walk is the outer and the inner node.
use data_looker.Prelude.{true, none, some, List, [], ◌∷◌}
use data_looker.Text.{Text, codes}
use data_looker.Postgres.Risks.{Node, RangeVar, select_statement, delete_statement}

abbrev orders : RangeVar
orders = record { schemaname = []; relname = codes "orders" }

abbrev inner : Node
inner = delete_statement (some orders) true

abbrev outer : Node
outer = select_statement none

abbrev walk : Node → List Node
walk (select_statement none) = outer ∷ inner ∷ []
walk other = other ∷ []

abbrev a_text : Text
a_text = codes "WITH gone AS (DELETE FROM orders WHERE id = 1 RETURNING *) SELECT * FROM gone"
