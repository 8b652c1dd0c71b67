-- ===== src/Server/RecordCalls/Tests.antt =====
-- The theorems about retrieved records at a concrete ledger.
use dgc_database_tp.Prelude.{
  Every, arith, ℕ, List, [], ◌∷◌, some, ◌≡◌, refl, ◌⊎◌, Each, text_test, ℕ_test,
}
use dgc_database_tp.Rethink.Sorting.{by_insertion}
use dgc_database_tp.Documents.Structs.{number, pos, of_number}
use dgc_database_tp.LedgerSync.Samples.{lists}
use dgc_database_tp.Server.Samples.{plain_sdk, noon}
use dgc_database_tp.Server.Transactions.{Transaction, Header, create_txns}
use dgc_database_tp.Server.Reads.{get_table, current_block, query_with_current_block}
use dgc_database_tp.Server.Reads.Properties.{
  Update, PropertyView, fetch_property, fetch_property_query, get_property_values,
  find_reported_values, find_property, get_update, get_reporter, first_reporter, value_of, pages_of,
  get_authorized_reporter_keys,
}
use dgc_database_tp.Server.Reads.Retrieve.{terms, Answer, selected, retrieve_records}
use dgc_database_tp.Server.Reads.Retrieve.Answers.{IsAnswer}
use dgc_database_tp.Server.Reads.Retrieve.Complete.{
  IsComplete, IsComparable, retrieve_records-IsComplete,
}
use dgc_database_tp.Server.RecordCalls.{
  Keys, Call, delete_records, start, delivered, submitted, Reach, begin, next, retrieval_ends,
  submission, requests_of,
}
use dgc_database_tp.Server.RecordCalls.Sending.{IsWhole, Reach-IsWhole}
use dgc_database_tp.Server.RecordCalls.Deleting.{IsFinalized, delete_records-IsFinalized}
use dgc_database_tp.Server.RecordCalls.Samples.{
  catch, same_number, weighed_five, answers, catch-answers,
}

abbrev update_of : ℕ → ℕ → Update
update_of grams timestamp = record {
  value = of_number (pos grams);
  timestamp = timestamp;
  reporter = record { name = "Ann"; public_key = "02a" };
}

abbrev cod_weight : PropertyView
cod_weight = record {
  name = "weight";
  record_id = "cod";
  reporters = "02a" ∷ [];
  data_type = number;
  value = some (update_of 7 200);
  updates = update_of 7 200 ∷ update_of 5 100 ∷ [];
}

cod_weight-fetched : fetch_property lists by_insertion "cod" "weight" catch ≡ some cod_weight
unfolding fetch_property fetch_property_query get_property_values find_reported_values find_property
    get_update get_reporter first_reporter value_of pages_of get_authorized_reporter_keys get_table
    current_block query_with_current_block
cod_weight-fetched = refl

catch-block : current_block lists by_insertion catch ≡ some 2
unfolding current_block
catch-block = refl

catch-IsComplete :
    Every
      (λ r.
        IsComplete lists by_insertion catch 2 r.record_id
        × IsComparable lists by_insertion catch 2 same_number weighed_five.query r.record_id)
      (selected lists by_insertion catch 2 "fish")
unfolding get_table find_property pages_of
catch-IsComplete = (
  (
    record { known = refl; single = λ name. ground arith },
    (((_, ("", refl, refl)), ((_, ("", refl, refl)), tt)), tt),
  ),
  ((record { known = refl; single = λ name. ground arith }, (((_, ("", refl, refl)), tt), tt)), tt),
)

retrieve_records-IsComplete_example :
    (rs : List Answer) × (retrieve_records same_number lists by_insertion weighed_five catch
      ≡ some rs)
    × Each
        (IsAnswer same_number lists by_insertion catch 2 (terms (("weight", 5) ∷ [])))
        (selected lists by_insertion catch 2 "fish")
        rs
retrieve_records-IsComplete_example =
    retrieve_records-IsComplete same_number lists by_insertion weighed_five catch 2 catch-block
      catch-IsComplete

abbrev keys : Keys
keys = record { private_key = "a"; receiving_key = "b" }

-- A call of deleteRecords whose retrieval ends before it submits.
abbrev initial : Call Header ℕ
initial = start plain_sdk "server" delete_records keys (some answers)

abbrev after : Call Header ℕ
after = delivered plain_sdk "server" delete_records keys (λ n. "") (some answers) initial

abbrev done : Call Header ℕ
done = submitted plain_sdk "server" delete_records keys (λ n. noon) after

abbrev sent : List (Transaction Header)
sent = create_txns plain_sdk "server" [] (requests_of delete_records (λ n. noon) 0 after.records)

done-Reach : Reach plain_sdk "server" delete_records keys (some answers) done
done-Reach =
    next after done
      (next initial after begin (retrieval_ends initial after (λ n. "") (some answers) refl refl))
      (submission after done (λ n. noon) refl refl)

done-sent : done.sent ≡ some sent
unfolding submitted
done-sent = refl

Reach-IsWhole_example : IsWhole plain_sdk "server" delete_records keys (some answers) sent
Reach-IsWhole_example =
    Reach-IsWhole plain_sdk "server" delete_records keys (some answers) done sent done-Reach
      done-sent

done-retrieved :
    Reach plain_sdk "server" delete_records keys
      (retrieve_records same_number lists by_insertion weighed_five catch)
      done
done-retrieved = rw catch-answers done-Reach

delete_records-IsFinalized_example :
    (sent ≡ [])
    ⊎ ((block : ℕ) × (current_block lists by_insertion catch ≡ some block)
        × Each
            (IsFinalized plain_sdk "server" keys same_number lists by_insertion catch block
              (terms (("weight", 5) ∷ [])))
            (selected lists by_insertion catch block "fish")
            sent)
delete_records-IsFinalized_example =
    delete_records-IsFinalized plain_sdk "server" keys same_number lists by_insertion catch
      weighed_five done sent done-retrieved done-sent
