-- ===== src/Server/Reads/Properties/Found.antt =====
-- When the server can show a property.
use mathlib.Core.Option
use dgc_database_tp.Prelude.{some, ◌≡◌, get_elem?, text_test}
use dgc_database_tp.Rethink.Sorting.{Sorting}
use dgc_database_tp.Documents.{Property, Reporter}
use dgc_database_tp.Documents.Structs.{Value}
use dgc_database_tp.LedgerSync.Ledger.{Ledger}
use dgc_database_tp.Server.Reads.Properties.{Reported, reporter_index, value_of}

-- The value has the field of the property's type, and its reporter is one of the property's.
abbrev pub IsReadable : Property → Reported → Type 0
IsReadable p v =
    ((x : Value) × (value_of p.data_type v ≡ some x))
    × ((r : Reporter) × (get_elem? p.reporters (reporter_index v) ≡ some r))
