-- ===== src/Server/Reads/Proposals/Retrieved.antt =====
-- The proposals among the entries of a block, as a table that the server reads at that block.
use dgc_database_tp.Prelude.{Option, ℕ, String, List, [], ◌∷◌, ◌≡◌, refl, text_test}
use dgc_database_tp.Documents.{Proposal, Property, PropertyPage}
use dgc_database_tp.LedgerSync.Versions.{write_all}
use dgc_database_tp.LedgerSync.Ledger.{Stores, Ledger, proposal_index}
use dgc_database_tp.LedgerSync.State.{
  add_property_page, store_page, add_participant, add_record, add_table, add_property, add_proposal,
  add_exchange,
}
use dgc_database_tp.LedgerSync.State.Synced.{
  Entry, a_participant, a_record, a_table, a_property, a_page, a_proposal, an_exchange, add_entry,
}
use dgc_database_tp.LedgerSync.Deltas.{add_all}
use dgc_database_tp.Server.Reads.Handled.{Part}

abbrev pub proposals_of : List Entry → List Proposal
proposals_of [] = []
proposals_of (a_proposal d ∷ xs) = d ∷ proposals_of xs
proposals_of (_ ∷ xs) = proposals_of xs

module _ (S : Stores) where
  pub proposals-add_all :
      (xs : List Entry) (b : ℕ) (l : Ledger S)
      → (add_all S xs b l).proposals
        ≡ write_all S.proposals proposal_index (proposals_of xs) b l.proposals
  unfolding add_all write_all add_entry add_participant add_record add_table add_property
      add_proposal add_exchange add_property_page store_page
  proposals-add_all [] b l = refl
  proposals-add_all (a_participant d ∷ xs) b l = proposals-add_all xs b (add_participant S d b l)
  proposals-add_all (a_record d ∷ xs) b l = proposals-add_all xs b (add_record S d b l)
  proposals-add_all (a_table d ∷ xs) b l = proposals-add_all xs b (add_table S d b l)
  proposals-add_all (a_property d ∷ xs) b l = proposals-add_all xs b (add_property S d b l)
  proposals-add_all (a_page d ∷ xs) b l = proposals-add_all xs b (add_property_page S d b l)
  proposals-add_all (a_proposal d ∷ xs) b l = proposals-add_all xs b (add_proposal S d b l)
  proposals-add_all (an_exchange d ∷ xs) b l = proposals-add_all xs b (add_exchange S d b l)

  pub proposals-store_page :
      (p : Option Property) (page : PropertyPage) (b : ℕ) (l : Ledger S)
      → (store_page S p page b l).proposals ≡ l.proposals
  unfolding store_page
  proposals-store_page p page b l = refl

  abbrev pub proposal_part : Part S
  proposal_part = record {
    D = Proposal;
    K = String;
    test = text_test;
    table = S.proposals;
    index = proposal_index;
    state = λ l. l.proposals;
    docs_of = proposals_of;
    state-add_all = proposals-add_all;
    state-with_blocks = λ l bs. refl;
    state-store_page = proposals-store_page;
    docs_of-page = λ page. refl;
    state-IsLedger = λ n l h. h.proposals;
  }
