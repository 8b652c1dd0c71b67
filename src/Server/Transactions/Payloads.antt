-- ===== src/Server/Transactions/Payloads.antt =====
-- The actions that server/transaction/*.js sends, as protos/payload.proto declares them, and the one
-- that each function of server/transaction/ makes of its argument. A field that a call leaves
-- `undefined` is `none`; amounts, and the values of a request's data, are of a type `D`, the values of
-- JavaScript.
use dgc_database_tp.Prelude.{ℕ, String, List, Option, none, some, if◌then◌else◌}
use dgc_database_tp.Documents.{
  Role, buy_dgc, sell_dgc, credit_dgc, transfer_dgc, transfer_custodianship, authorize_reporter,
}
use dgc_database_tp.Server.Properties.{Field, Written, is_message_field}

pub data Response : Type 0 where
  accept auto_close auto_open : Response

pub record Exchange (D : Type 0) : Type 0 where
  pub timestamp : ℕ
  pub buy_proposal_id : String
  pub sell_proposal_id : String
  pub currency_iso_codes : String
  pub last_dgc_price : D
  pub last_currency_price : D

-- `CreateProposalAction`
pub record ProposalAction (D : Type 0) : Type 0 where
  pub role : Role
  pub proposal_id : String
  pub receiving_participant : Option String
  pub record_id : Option String
  pub properties : Option (List String)
  pub dg_coin_amount : Option D
  pub currency_iso_codes : Option String
  pub currency_quote_amount : Option D

-- The object given to `AnswerProposalAction.create`; that message has no `properties`, and its encoding
-- leaves them out.
pub record AnswerAction (D : Type 0) : Type 0 where
  pub response : Response
  pub role : Role
  pub proposal_id : String
  pub receiving_participant : Option String
  pub record_id : Option String
  pub properties : Option (List String)
  pub dg_coin_amount : Option D
  pub exchanges : Option (List (Exchange D))

-- `PropertyValue`: its name, the number of its data type, and the field that is set, if any is.
pub record PropertyMessage (D : Type 0) : Type 0 where
  pub name : String
  pub data_type : ℕ
  pub content : Option (Field × D)

-- The object given to `PropertyValue.create`, `none` for `{}`, as its encoding holds it: the message
-- has no `structValue`.
unfoldable pub property_message : {D : Type 0} → Option (Written D) → PropertyMessage D
property_message none = record { name = ""; data_type = 0; content = none }
property_message (some w) = record {
  name = w.name;
  data_type = w.data_type;
  content = if is_message_field w.field then some (w.field, w.content) else none;
}

pub data Action (D : Type 0) : Type 0 where
  create_participant : String → Action D
  create_table : String → List D → Action D
  create_record : String → String → List (PropertyMessage D) → Action D
  update_properties : String → List (PropertyMessage D) → Action D
  finalize_record : String → Action D
  create_proposal : ProposalAction D → Action D
  answer_proposal : AnswerAction D → Action D

-- The object that a function of server/transaction/proposals.js is given, less its private key; the
-- records of a transfer or an authorization have the same fields. transferDGCoin finds two of them
-- under `param.data`.
pub record Param (D : Type 0) : Type 0 where
  pub proposal_id : String
  pub receiving_participant : Option String
  pub record_id : Option String
  pub reportable_properties : Option (List String)
  pub dg_coin_amount : Option D
  pub currency_iso_codes : Option String
  pub currency_quote_amount : Option D
  pub exchanges : Option (List (Exchange D))

-- The functions of server/transaction/proposals.js, by the action that they send, and those of
-- participants.js and records.js
module _ {D : Type 0} where
  abbrev pub answer_dg_coin_credit : Param D → Action D
  answer_dg_coin_credit param = answer_proposal (record {
    response = accept;
    role = credit_dgc;
    proposal_id = param.proposal_id;
    receiving_participant = param.receiving_participant;
    record_id = none;
    properties = none;
    dg_coin_amount = param.dg_coin_amount;
    exchanges = none;
  })

  abbrev pub credit_dg_coin : Param D → Action D
  credit_dg_coin param = create_proposal (record {
    role = credit_dgc;
    proposal_id = param.proposal_id;
    receiving_participant = param.receiving_participant;
    record_id = none;
    properties = none;
    dg_coin_amount = param.dg_coin_amount;
    currency_iso_codes = none;
    currency_quote_amount = none;
  })

  abbrev pub sell_close_auto_answer : Param D → Action D
  sell_close_auto_answer param = answer_proposal (record {
    response = auto_close;
    role = sell_dgc;
    proposal_id = param.proposal_id;
    receiving_participant = none;
    record_id = none;
    properties = none;
    dg_coin_amount = param.dg_coin_amount;
    exchanges = param.exchanges;
  })

  abbrev pub sell_open_auto_answer : Param D → Action D
  sell_open_auto_answer param = answer_proposal (record {
    response = auto_open;
    role = sell_dgc;
    proposal_id = param.proposal_id;
    receiving_participant = none;
    record_id = none;
    properties = none;
    dg_coin_amount = param.dg_coin_amount;
    exchanges = none;
  })

  abbrev pub sell_dg_coin : Param D → Action D
  sell_dg_coin param = create_proposal (record {
    role = sell_dgc;
    proposal_id = param.proposal_id;
    receiving_participant = none;
    record_id = none;
    properties = none;
    dg_coin_amount = param.dg_coin_amount;
    currency_iso_codes = param.currency_iso_codes;
    currency_quote_amount = param.currency_quote_amount;
  })

  abbrev pub buy_close_auto_answer : Param D → Action D
  buy_close_auto_answer param = answer_proposal (record {
    response = auto_close;
    role = buy_dgc;
    proposal_id = param.proposal_id;
    receiving_participant = none;
    record_id = none;
    properties = none;
    dg_coin_amount = param.dg_coin_amount;
    exchanges = param.exchanges;
  })

  abbrev pub buy_open_auto_answer : Param D → Action D
  buy_open_auto_answer param = answer_proposal (record {
    response = auto_open;
    role = buy_dgc;
    proposal_id = param.proposal_id;
    receiving_participant = none;
    record_id = none;
    properties = none;
    dg_coin_amount = param.dg_coin_amount;
    exchanges = none;
  })

  abbrev pub buy_dg_coin : Param D → Action D
  buy_dg_coin param = create_proposal (record {
    role = buy_dgc;
    proposal_id = param.proposal_id;
    receiving_participant = none;
    record_id = none;
    properties = none;
    dg_coin_amount = param.dg_coin_amount;
    currency_iso_codes = param.currency_iso_codes;
    currency_quote_amount = param.currency_quote_amount;
  })

  abbrev pub answer_dg_coin : Param D → Action D
  answer_dg_coin param = answer_proposal (record {
    response = accept;
    role = transfer_dgc;
    proposal_id = param.proposal_id;
    receiving_participant = param.receiving_participant;
    record_id = none;
    properties = none;
    dg_coin_amount = param.dg_coin_amount;
    exchanges = none;
  })

  abbrev pub transfer_dg_coin : Param D → Action D
  transfer_dg_coin param = create_proposal (record {
    role = transfer_dgc;
    proposal_id = param.proposal_id;
    receiving_participant = param.receiving_participant;
    record_id = none;
    properties = none;
    dg_coin_amount = param.dg_coin_amount;
    currency_iso_codes = none;
    currency_quote_amount = none;
  })

  abbrev pub transfer_create : Param D → Action D
  transfer_create param = create_proposal (record {
    role = transfer_custodianship;
    proposal_id = param.proposal_id;
    receiving_participant = param.receiving_participant;
    record_id = param.record_id;
    properties = none;
    dg_coin_amount = none;
    currency_iso_codes = none;
    currency_quote_amount = none;
  })

  abbrev pub transfer_answer : Param D → Action D
  transfer_answer param = answer_proposal (record {
    response = accept;
    role = transfer_custodianship;
    proposal_id = param.proposal_id;
    receiving_participant = param.receiving_participant;
    record_id = param.record_id;
    properties = none;
    dg_coin_amount = none;
    exchanges = none;
  })

  abbrev pub authorize_create : Param D → Action D
  authorize_create param = create_proposal (record {
    role = authorize_reporter;
    proposal_id = param.proposal_id;
    receiving_participant = param.receiving_participant;
    record_id = param.record_id;
    properties = param.reportable_properties;
    dg_coin_amount = none;
    currency_iso_codes = none;
    currency_quote_amount = none;
  })

  abbrev pub authorize_answer : Param D → Action D
  authorize_answer param = answer_proposal (record {
    response = accept;
    role = authorize_reporter;
    proposal_id = param.proposal_id;
    receiving_participant = param.receiving_participant;
    record_id = param.record_id;
    properties = param.reportable_properties;
    dg_coin_amount = none;
    exchanges = none;
  })
