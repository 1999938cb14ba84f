-- ===== src/Tests/Messages.antt =====
-- The messages of a block of the host chain, on a store that only counts its changes.
use opinit_bots.Base.{
  ℕ, ◌+◌, ◌≡◌, ◌≢◌, ◌⊎◌, refl, true, false, List, [], ◌∷◌, ◌++◌, none, some, length,
}
use opinit_bots.Base.Bytes.{bytes_equal}
use opinit_bots.Base.Result.{ok, err}
use opinit_bots.Db.Level.{Change, Level, LevelDb}
use opinit_bots.Db.Stage.{new_stage}
use opinit_bots.Provider.Messages.{BaseChild, Messages, BridgeConfig}
use opinit_bots.Executor.Host.{
  Environment, Host, HostError, panic, bad_coin, with_msgs, append_msg_queue, tx_handler,
  begin_block_handler, end_block_handler,
}
use opinit_bots.Broadcaster.Store.Saved.{Saves}
use opinit_bots.Executor.Host.Published.{outgoing, block_changes, end_block_handler-Published}
use opinit_bots.Executor.Host.Steps.{BlockStep, queueing, transaction, run_steps}
use opinit_bots.Tests.Broadcaster.{codec}
use opinit_bots.Tests.Host.{readers}

abbrev counting_level : Level ℕ
counting_level = record {
  held = λ l key. none;
  write = λ l changes. ok (l + length changes);
  entries = λ l. [];
}

abbrev handle : LevelDb ℕ
handle = record { db = 0; prefix = 104 ∷ [] }

abbrev config : BridgeConfig
config = record {
  challenger = [];
  proposer = [];
  batch_chain_type = 0;
  batch_submitter = [];
  oracle_enabled = true;
  rest = [];
}

abbrev child : BaseChild
child = record {
  accounts = some ((1 ∷ []) ∷ (2 ∷ []) ∷ []);
  base_account_index = some 0;
  oracle_account_index = some 1;
  oracle_account_granter = 7 ∷ [];
  bridge_info = record { bridge_id = 1; rest = []; bridge_config = config };
}

abbrev messages_of : Messages ℕ
messages_of = record {
  new_msg_finalize_token_deposit = λ sender from to c l1_sequence height l1_denom b. l1_sequence;
  new_msg_update_oracle = λ sender height b. height;
  new_msg_set_bridge_info = λ sender info. 0;
  msg_exec = λ grantee msgs. 100 + length msgs;
  validate = λ msg. true;
  has_any = λ msg. true;
}

abbrev env : Environment ℕ ℕ
env = record {
  level = counting_level;
  codec = codec;
  messages_of = messages_of;
  child = child;
  child_db = record { db = 0; prefix = 99 ∷ [] };
  format_int = λ n. n ∷ [];
  status_json = record { marshal = λ status. some []; unmarshal = λ b. none };
  readings = λ n. 50 + n;
  bridge_id = 1;
  readers = readers;
  coin_of = λ denom amount. bad_coin;
  host_accounts = none;
  chain_type = λ b. 0;
}

-- Two deposits are queued for one sender.
abbrev host : Host ℕ ℕ
host = record {
  stage = new_stage handle;
  processed_msgs = [];
  msg_queue = append_msg_queue 8 (1 ∷ []) (append_msg_queue 7 (1 ∷ []) []);
  bridge_config = config;
  initial_l1_sequence = 1;
  status = record {
    last_proposed_output_index = 0;
    last_proposed_output_l2_block_number = 0;
    last_proposed_output_time = 0;
    last_updated_batch_time = 0;
  };
  oracle_relay_enabled = false;
  clock = record { last_timestamp = 0; calls = 0 };
  batch_infos = [];
  broadcast = [];
}

-- The oracle's message of the latest block is wrapped for the granter.
abbrev after_tx : Host ℕ ℕ
after_tx =
    (tx_handler env (record { block_height = 5; latest_height = 5; tx_index = 0; tx = [] }) host).1

-- The group of the oracle's message is not saved: three changes reach the store, and both groups are
-- broadcast.
two_groups :
    let (r, h') = end_block_handler env 5 after_tx in
    (h'.stage.parent.db ≡ 3) × (length h'.broadcast ≡ 2)
unfolding end_block_handler tx_handler append_msg_queue bytes_equal opinit_bots.Db.Stage.stage_set
    new_stage
two_groups = (refl, refl)

end_block_handler-Published_example :
    let (r, h') = end_block_handler env 5 after_tx in
    ((e : HostError) × (r ≡ err e)
      × (e ≢ panic)
      × (h'.stage.parent ≡ after_tx.stage.parent)
      × (h'.broadcast ≡ after_tx.broadcast))
    ⊎ ((saves : List Change) × (status : List ℕ) × (r ≡ ok tt)
        × Saves codec env.child_db (outgoing env after_tx) saves
        × (env.status_json.marshal after_tx.status ≡ some status)
        × (env.level.write after_tx.stage.parent.db (block_changes env 5 after_tx saves status)
            ≡ ok h'.stage.parent.db)
        × (h'.broadcast ≡ after_tx.broadcast ++ with_msgs (outgoing env after_tx)))
end_block_handler-Published_example = end_block_handler-Published env 5 after_tx

-- Two messages for one sender, one for another, and the oracle's transaction.
abbrev steps : List (BlockStep ℕ)
steps =
    queueing (ok (some (9, 1 ∷ [])))
    ∷ transaction (record { block_height = 5; latest_height = 5; tx_index = 0; tx = [] })
    ∷ queueing (ok (some (10, 2 ∷ [])))
    ∷ queueing (ok none)
    ∷ queueing (ok (some (11, 1 ∷ [])))
    ∷ []

abbrev stepped : Host ℕ ℕ
stepped = (run_steps env steps (begin_block_handler env host).1).1
