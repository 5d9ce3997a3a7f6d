-- ===== src/Postgres/Preview.antt =====
-- src-tauri/src/drivers/postgres/preview.rs: the statement of a table preview.
use data_looker.Prelude.{
  Bool, Option, none, some, List, [], ◌++◌, if◌then◌else◌, is_empty, any, map,
}
use data_looker.Text.{Text, codes, trim, join}
use data_looker.Text.Decimal.{to_text}
use data_looker.Drivers.{Preview, Sort}
use data_looker.Postgres.Quote.{quote}

pub record PreviewColumn : Type 0 where
  pub name : Text
  pub as_text : Bool

unfoldable pub select_item : PreviewColumn → Text
unfolding quote
select_item c =
    let name = quote c.name in
    if c.as_text then codes "t." ++ (name ++ (codes "::text AS " ++ name)) else codes "t." ++ name

unfoldable pub select_list : List PreviewColumn → Text
unfolding select_item
select_list columns =
    if any (λ (c : PreviewColumn). c.as_text) columns
    then join (codes ", ") (map select_item columns)
    else codes "t.*"

unfoldable pub order_by : Option Sort → Text
unfolding quote
order_by none = []
order_by (some sort) =
    codes " ORDER BY "
    ++ (quote sort.column ++ (codes " " ++ (if sort.descending then codes "DESC" else codes "ASC")))

unfoldable pub preview_sql : Preview → Text → Text
unfolding order_by
preview_sql preview select =
    codes "SELECT "
    ++ (select
        ++ ((if preview.versioned then codes ", t.xmin::text" else [])
            ++ (codes " FROM "
                ++ (quote preview.schema
                    ++ (codes "."
                        ++ (quote preview.table
                            ++ (codes " AS t"
                                ++ ((if is_empty (trim preview.filter)
                                      then []
                                      else codes " WHERE " ++ trim preview.filter)
                                    ++ (order_by preview.sort
                                        ++ (codes " LIMIT "
                                            ++ (to_text preview.limit
                                                ++ (codes " OFFSET "
                                                    ++ to_text preview.offset))))))))))))
