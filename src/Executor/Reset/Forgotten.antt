-- ===== src/Executor/Reset/Forgotten.antt =====
-- What a reset leaves in the store.
use opinit_bots.Base.{
  ◌≡◌, refl, ◌∙◌, ap, Bool, false, ◌||◌, List, [], ◌∷◌, none, if◌then◌else◌, arith, Bool-cases, inl,
  inr, subst,
}
use opinit_bots.Base.Bytes.{bytes_equal}
use opinit_bots.Base.Result.{ok, Result-cases}
use opinit_bots.Db.{Bytes}
use opinit_bots.Db.Keys.{append_splitter}
use opinit_bots.Db.Basic.{of_level}
use opinit_bots.Db.Level.{Level, LevelLaws, LevelDb, prefixed_key, with_prefix}
use opinit_bots.Db.Iterator.{has_prefix}
use opinit_bots.Db.Sweep.Ordered.{IsOrdered}
use opinit_bots.Db.Sweep.Cleared.{
  Cleared, Cleared-then, Cleared-nothing, Cleared-same, level_delete-Cleared,
}
use opinit_bots.Db.Sweep.Swept.{swept, sweep-Cleared}
use opinit_bots.Broadcaster.Types.{pending_txs_prefix, processed_msgs_prefix}
use opinit_bots.Batch.Store.{synced_height_key}
use opinit_bots.Node.Store.{delete_synced_height, delete_pending_txs, delete_processed_msgs}
use opinit_bots.Executor.Reset.{
  host_name, child_name, batch_name, da_name, is_node_name, reset_height, reset_heights_of,
  reset_heights,
}

-- The keys of a node's synced height, pending transactions and processed messages, as the library below
-- sees them.
unfoldable pub of_progress : {L : Type 0} → LevelDb L → Bytes → Bytes → Bool
of_progress db node_name key =
    let node = with_prefix node_name db in
    (bytes_equal (prefixed_key node synced_height_key) key
      || has_prefix (prefixed_key node (append_splitter pending_txs_prefix)) key)
    || has_prefix (prefixed_key node (append_splitter processed_msgs_prefix)) key

abbrev pub of_any : {L : Type 0} → LevelDb L → List Bytes → Bytes → Bool
of_any db [] key = false
of_any db (name ∷ names) key = of_progress db name key || of_any db names key

of_any-prefix :
    {L : Type 0} (d e : LevelDb L) (names : List Bytes) (key : Bytes)
    → d.prefix ≡ e.prefix
    → of_any d names key ≡ of_any e names key
unfolding of_progress with_prefix
of_any-prefix d e [] key same = refl
of_any-prefix d e (name ∷ names) key same =
    (λ i. of_progress (record d { prefix = same i }) name key || of_any-prefix d e names key same i)

under_handle :
    {L : Type 0} (d e : LevelDb L) (prefix key : Bytes)
    → d.prefix ≡ e.prefix
    → swept d prefix none key ≡ has_prefix (prefixed_key e prefix) key
unfolding swept prefixed_key
under_handle d e prefix key same =
    ground arith
    ∙ ap (λ (p : Bytes). has_prefix (prefixed_key (record d { prefix = p }) prefix) key) same

module _ {L : Type 0} (level : Level L) (laws : LevelLaws level) where
  of_progress-Cleared :
      (name : Bytes) (db d1 d2 d3 : LevelDb L)
      → IsOrdered level db.db
      → delete_synced_height (of_level level) (with_prefix name db) ≡ ok d1
      → delete_pending_txs level d1 ≡ ok d2
      → delete_processed_msgs level d2 ≡ ok d3
      → Cleared level (of_progress db name) db.db d3.db
  unfolding delete_synced_height of_level delete_pending_txs delete_processed_msgs of_progress
      with_prefix
  of_progress-Cleared name db d1 d2 d3 ordered first second third =
      let node = with_prefix name db in
      let (same1, clear1) =
        level_delete-Cleared level laws node d1 synced_height_key first ordered in
      let (same2, clear2) =
        sweep-Cleared level laws (append_splitter pending_txs_prefix) none d1 d2 second
          clear1.ordered in
      let (same3, clear3) =
        sweep-Cleared level laws (append_splitter processed_msgs_prefix) none d2 d3 third
          clear2.ordered in
      Cleared-then d3.db _ (has_prefix (prefixed_key node (append_splitter processed_msgs_prefix)))
        (Cleared-then d2.db (bytes_equal (prefixed_key node synced_height_key))
          (has_prefix (prefixed_key node (append_splitter pending_txs_prefix))) clear1
          (Cleared-same _ _ (λ key. under_handle d1 node _ key same1) clear2))
        (Cleared-same _ _ (λ key. under_handle d2 node _ key (same2 ∙ same1)) clear3)

  reset_height-Cleared :
      (name : Bytes) (db db' : LevelDb L)
      → IsOrdered level db.db
      → reset_height level name db ≡ ok db'
      → (db'.prefix ≡ db.prefix) × Cleared level (of_progress db name) db.db db'.db
  unfolding reset_height
  reset_height-Cleared name db db' ordered run = elim (Bool-cases (is_node_name name)) [
    | inr unknown ↦ absurd (ground arith)
    | inl known ↦
        let node = with_prefix name db in
        elim (Result-cases (delete_synced_height (of_level level) node)) [
          | inr (e, failed) ↦ absurd (ground arith)
          | inl (d1, first) ↦ elim (Result-cases (delete_pending_txs level d1)) [
            | inr (e, failed) ↦ absurd (ground arith)
            | inl (d2, second) ↦ elim (Result-cases (delete_processed_msgs level d2)) [
              | inr (e, failed) ↦ absurd (ground arith)
              | inl (d3, third) ↦
                  let same : record db { db = d3.db } ≡ db' = ground arith in
                  subst
                    (λ (d : LevelDb L).
                      (d.prefix ≡ db.prefix) × Cleared level (of_progress db name) db.db d.db)
                    same (refl, of_progress-Cleared name db d1 d2 d3 ordered first second third)
            ]
          ]
        ]
  ]

  reset_heights_of-Cleared :
      (names : List Bytes) (db db' : LevelDb L)
      → IsOrdered level db.db
      → reset_heights_of level names db ≡ ok db'
      → Cleared level (of_any db names) db.db db'.db
  unfolding reset_heights_of
  reset_heights_of-Cleared [] db db' ordered run =
      let same : db ≡ db' = ground arith in
      Cleared-nothing (ap (λ d. d.db) same) (subst (λ d. IsOrdered level d.db) same ordered)
  reset_heights_of-Cleared (name ∷ names) db db' ordered run =
      elim (Result-cases (reset_height level name db)) [
        | inr (e, failed) ↦ absurd (ground arith)
        | inl (d, first) ↦
            let (same, clear) = reset_height-Cleared name db d ordered first in
            let rest = reset_heights_of-Cleared names d db' clear.ordered (ground arith) in
            Cleared-then db'.db (of_progress db name) (of_any db names) clear
              (Cleared-same _ _ (λ key. of_any-prefix d db names key same) rest)
      ]

  -- When a reset succeeds, the synced height, the pending transactions and the processed messages of all
  -- four nodes are gone from the store, and every other key holds what it held.
  pub reset_heights-Cleared :
      (db db' : LevelDb L)
      → IsOrdered level db.db
      → reset_heights level db ≡ ok db'
      → (key : Bytes)
      → level.held db'.db key ≡ (
          if of_any db (host_name ∷ child_name ∷ batch_name ∷ da_name ∷ []) key
          then none
          else level.held db.db key)
  unfolding reset_heights
  reset_heights-Cleared db db' ordered run key =
      (reset_heights_of-Cleared (host_name ∷ child_name ∷ batch_name ∷ da_name ∷ []) db db' ordered
          run).held
        key
