-- ===== src/DbWriter/Insert.antt =====
-- `table_for_event` and `insert_event`.
use yurei_jsonrpc_client.Prelude.{
  eq_of_some, subst, ℕ, ◌<◌, ◌≡◌, refl, Bool, true, Option, none, some, List, [], ◌∷◌, ◌++◌, arith,
  length, length-append, take_all, Bytes, option_case,
}
use yurei_jsonrpc_client.CString.{codes, copy_string, print_u64}
use yurei_jsonrpc_client.Config.Fields.{Config}
use yurei_jsonrpc_client.EventQueue.Event.{Event, EventKind, unknown, pumpfun, raydium}

abbrev pub if_set : Bytes → Option Bytes
if_set [] = none
if_set (c ∷ s) = some (c ∷ s)

-- NULL is `none`.
unfoldable pub table_for_event : EventKind → Config → Option Bytes
table_for_event pumpfun config = if_set config.pumpfun_table
table_for_event raydium config = if_set config.raydium_table
table_for_event unknown config = none

-- What `PQexecParams` is given: the text of the query, the two text parameters, and the bytes and the
-- length of the binary one.
pub record Statement : Type 0 where
  pub query : Bytes
  pub slot_text : Bytes
  pub signature : Bytes
  pub raw_log : Bytes
  pub raw_log_length : ℕ

abbrev pub before_table : Bytes
before_table = codes "INSERT INTO "

abbrev pub after_table : Bytes
after_table = codes " (slot, signature, raw_log) VALUES ($1, $2, $3) ON CONFLICT DO NOTHING"

unfoldable pub statement : Bytes → Event → Statement
statement table event = record {
  query = copy_string 256 (before_table ++ (table ++ after_table));
  slot_text = print_u64 event.slot;
  signature = event.signature;
  raw_log = event.payload;
  raw_log_length = event.data_len;
}

-- `insert_event`: the list says which of the coming calls of `PQexecParams` succeed. The result is
-- what the function returns, what it sent, and the answers left; `none` means that the answers ended.
pub record Inserted : Type 0 where
  pub done : Bool
  pub sent : List Statement
  pub answers : List Bool

abbrev pub execute : Statement → List Bool → Option Inserted
execute s [] = none
execute s (a ∷ left) = some (record { done = a; sent = s ∷ []; answers = left })

pub execute-sent :
    (s : Statement) (answers : List Bool) {r : Inserted}
    → execute s answers ≡ some r
    → r.sent ≡ s ∷ []
execute-sent s [] h = cc
execute-sent s (a ∷ left) h = subst (λ (r : Inserted). r.sent ≡ s ∷ []) (eq_of_some h) refl

unfoldable pub insert_event : Config → Event → List Bool → Option Inserted
insert_event config event answers =
    let skipped : Inserted = record { done = true; sent = []; answers = answers } in
    option_case (table_for_event event.kind config) (some skipped)
      λ table. execute (statement table event) answers

-- A table name that fits its array of 64 bytes goes whole into the query, which is never cut off.
pub statement-query :
    (table : Bytes) (event : Event)
    → length table < 64
    → (statement table event).query ≡ before_table ++ (table ++ after_table)
unfolding statement
statement-query table event short = take_all 255 (before_table ++ (table ++ after_table)) (
    omega
      (arith, length-append table after_table, length-append before_table (table ++ after_table)))
