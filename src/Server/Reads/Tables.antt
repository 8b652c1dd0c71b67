-- ===== src/Server/Reads/Tables.antt =====
-- server/db/tables.js, and `fetch` of server/api/tables.js.
pub mod Served
pub mod Received
use mathlib.Core.Option
use mathlib.Core.List.{head?}
use dgc_database_tp.Prelude.{
  map_option, ℕ, String, Bool, true, false, ◌&&◌, ◌||◌, List, [], ◌∷◌, map, filter, Option, none,
  some, ltb, leb, if◌then◌else◌, ◌==◌, text_test,
}
use dgc_database_tp.Rethink.Sorting.{Sorting}
use dgc_database_tp.Documents.{PropertySchema, SchemaRest, TableSchema}
use dgc_database_tp.LedgerSync.Versions.{Version, has_index}
use dgc_database_tp.LedgerSync.Ledger.{Stores, Ledger, table_index}
use dgc_database_tp.Server.Auth.{Reply, json, error, ApiError, other, not_found}
use dgc_database_tp.Server.Reads.{add_key, query_with_current_block}

-- An object is listed by its keys; `resource.without('name')` is the rest of a schema.
pub record PublishedTable : Type 0 where
  pub name : String
  pub properties : List (String × SchemaRest)

unfoldable pub array_to_object : List PropertySchema → Option (List (String × SchemaRest))
array_to_object [] = some []
array_to_object (p ∷ ps) = elim (array_to_object ps) [
  | none ↦ none
  | some object ↦ add_key p.name p.rest object
]

unfoldable pub publish_table : TableSchema → Option PublishedTable
publish_table t =
    Option.map (λ ps. record { name = t.name; properties = ps }) (array_to_object t.properties)

unfoldable pub from_block : {D : Type 0} → ℕ → Version D → Bool
from_block block v = leb v.start_block_num block && ltb block v.end_block_num

-- `map(publishTable).nth(0).default(null)`: null for an empty sequence
abbrev pub published_first : Option (Version TableSchema) → Option (Option PublishedTable)
published_first none = some none
published_first (some v) = Option.map some (publish_table v.doc)

module _ (S : Stores) (O : Sorting) where
  unfoldable pub fetch_query : String → Ledger S → ℕ → Option (Option PublishedTable)
  fetch_query name l block = published_first (
      head?
        (filter (from_block block) (filter (has_index table_index name) (S.tables.docs l.tables))))

  -- `fetch` of server/api/tables.js
  abbrev pub reply_table : Option (Option PublishedTable) → Reply PublishedTable
  reply_table none = error other
  reply_table (some none) = error not_found
  reply_table (some (some t)) = json t

  unfoldable pub fetch : String → Ledger S → Reply PublishedTable
  fetch name l = reply_table (query_with_current_block S O (fetch_query name l) l)

  -- `list` of server/db/tables.js, with the test that RethinkDB makes of the filter
  unfoldable pub list : (TableSchema → Bool) → Ledger S → Option (List PublishedTable)
  list query l =
      query_with_current_block S O
        (λ block.
          map_option (λ v. publish_table v.doc)
            (filter (λ v. query v.doc) (filter (from_block block) (S.tables.docs l.tables))))
        l
