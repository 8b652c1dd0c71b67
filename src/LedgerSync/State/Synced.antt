-- ===== src/LedgerSync/State/Synced.antt =====
-- The entries of a state change, and what writing them keeps.
use dgc_database_tp.Prelude.{
  Bool-cases, inl, inr, ℕ, ◌≤◌, ◌<◌, Option, none, some, ◌≡◌, refl, max_safe_integer, ℕ_test,
  text_test, pair_test,
}
use dgc_database_tp.Documents.{
  Participant, Record, TableSchema, Property, PropertyPage, Proposal, Exchange,
}
use dgc_database_tp.LedgerSync.Versions.{add_block_state}
use dgc_database_tp.LedgerSync.Versions.Adding.{IsLedger, IsLedger-mono, add_block_state-IsLedger}
use dgc_database_tp.LedgerSync.Ledger.{
  Stores, Ledger, participant_index, record_index, table_index, property_index, page_index,
  proposal_index, exchange_index, IsSynced,
}
use dgc_database_tp.LedgerSync.State.{
  is_storable, convert_page, add_participant, add_record, add_table, add_property, add_proposal,
  add_exchange, find_page_property, store_page, add_property_page,
}

-- A decoded entry of a state change, for each message that has an `add` function.
pub data Entry : Type 0 where
  a_participant : Participant → Entry
  a_record : Record → Entry
  a_table : TableSchema → Entry
  a_property : Property → Entry
  a_page : PropertyPage → Entry
  a_proposal : Proposal → Entry
  an_exchange : Exchange → Entry

-- Converting a page leaves its index alone.
page_index-convert_page :
    (p : Option Property) (page : PropertyPage) → page_index (convert_page p page) ≡ page_index page
unfolding convert_page
page_index-convert_page none page = refl
page_index-convert_page (some p) page = refl

module _ (S : Stores) where
  -- ``state[`add${name}`]``
  unfoldable pub add_entry : Entry → ℕ → Ledger S → Ledger S
  add_entry (a_participant d) = add_participant S d
  add_entry (a_record d) = add_record S d
  add_entry (a_table d) = add_table S d
  add_entry (a_property d) = add_property S d
  add_entry (a_page d) = add_property_page S d
  add_entry (a_proposal d) = add_proposal S d
  add_entry (an_exchange d) = add_exchange S d

  pub IsSynced-mono : {n b : ℕ} {l : Ledger S} → n ≤ b → IsSynced S n l → IsSynced S b l
  IsSynced-mono le h = record {
    participants = IsLedger-mono S.participants participant_index le h.participants;
    records = IsLedger-mono S.records record_index le h.records;
    tables = IsLedger-mono S.tables table_index le h.tables;
    properties = IsLedger-mono S.properties property_index le h.properties;
    property_pages = IsLedger-mono S.property_pages page_index le h.property_pages;
    proposals = IsLedger-mono S.proposals proposal_index le h.proposals;
    exchanges = IsLedger-mono S.exchanges exchange_index le h.exchanges;
  }

  store_page-IsLedger :
      (p : Option Property) (page : PropertyPage) (n b : ℕ) (t : S.property_pages.State)
      → n ≤ b
      → b < max_safe_integer
      → IsLedger S.property_pages page_index n t
      → IsLedger S.property_pages page_index b
          (add_block_state S.property_pages page_index (page_index page) (convert_page p page) b t)
  store_page-IsLedger p page n b t le lt h =
      rw (← page_index-convert_page p page)
        (add_block_state-IsLedger S.property_pages page_index (convert_page p page) n b t le lt h)

  pub store_page-IsSynced :
      (p : Option Property) (page : PropertyPage) (n b : ℕ) (l : Ledger S)
      → n ≤ b
      → b < max_safe_integer
      → IsSynced S n l
      → IsSynced S b (store_page S p page b l)
  unfolding store_page
  store_page-IsSynced p page n b l le lt h =
      let w = IsSynced-mono le h in
      record {
        participants = w.participants;
        records = w.records;
        tables = w.tables;
        properties = w.properties;
        property_pages = elim (Bool-cases (is_storable (convert_page p page).reported_values)) [
          | inl fits ↦
              rw fits (store_page-IsLedger p page n b l.property_pages le lt h.property_pages)
          | inr refused ↦ rw refused w.property_pages
        ];
        proposals = w.proposals;
        exchanges = w.exchanges;
      }

  -- Writing any entry at block b, below 2^53 - 1, to a database whose tables are well formed at b
  -- or an earlier block leaves every table well formed at b, a page with or without its property
  -- included.
  pub add_entry-IsSynced :
      (entry : Entry) (n b : ℕ) (l : Ledger S)
      → n ≤ b
      → b < max_safe_integer
      → IsSynced S n l
      → IsSynced S b (add_entry entry b l)
  unfolding add_entry add_participant add_record add_table add_property add_proposal add_exchange
      add_property_page
  add_entry-IsSynced (a_participant d) n b l le lt h =
      let w = IsSynced-mono le h in
      record {
        participants =
            add_block_state-IsLedger S.participants participant_index d n b l.participants le lt
              h.participants;
        records = w.records;
        tables = w.tables;
        properties = w.properties;
        property_pages = w.property_pages;
        proposals = w.proposals;
        exchanges = w.exchanges;
      }
  add_entry-IsSynced (a_record d) n b l le lt h =
      let w = IsSynced-mono le h in
      record {
        participants = w.participants;
        records = add_block_state-IsLedger S.records record_index d n b l.records le lt h.records;
        tables = w.tables;
        properties = w.properties;
        property_pages = w.property_pages;
        proposals = w.proposals;
        exchanges = w.exchanges;
      }
  add_entry-IsSynced (a_table d) n b l le lt h =
      let w = IsSynced-mono le h in
      record {
        participants = w.participants;
        records = w.records;
        tables = add_block_state-IsLedger S.tables table_index d n b l.tables le lt h.tables;
        properties = w.properties;
        property_pages = w.property_pages;
        proposals = w.proposals;
        exchanges = w.exchanges;
      }
  add_entry-IsSynced (a_property d) n b l le lt h =
      let w = IsSynced-mono le h in
      record {
        participants = w.participants;
        records = w.records;
        tables = w.tables;
        properties =
            add_block_state-IsLedger S.properties property_index d n b l.properties le lt
              h.properties;
        property_pages = w.property_pages;
        proposals = w.proposals;
        exchanges = w.exchanges;
      }
  add_entry-IsSynced (a_proposal d) n b l le lt h =
      let w = IsSynced-mono le h in
      record {
        participants = w.participants;
        records = w.records;
        tables = w.tables;
        properties = w.properties;
        property_pages = w.property_pages;
        proposals =
            add_block_state-IsLedger S.proposals proposal_index d n b l.proposals le lt h.proposals;
        exchanges = w.exchanges;
      }
  add_entry-IsSynced (an_exchange d) n b l le lt h =
      let w = IsSynced-mono le h in
      record {
        participants = w.participants;
        records = w.records;
        tables = w.tables;
        properties = w.properties;
        property_pages = w.property_pages;
        proposals = w.proposals;
        exchanges =
            add_block_state-IsLedger S.exchanges exchange_index d n b l.exchanges le lt h.exchanges;
      }
  add_entry-IsSynced (a_page d) n b l le lt h =
      store_page-IsSynced (find_page_property S d l) d n b l le lt h
