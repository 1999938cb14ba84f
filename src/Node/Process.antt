-- ===== src/Node/Process.antt =====
-- node/process.go: the loops over the heights that a node has not processed yet.
use opinit_bots.Base.{
  ℕ, zero, suc, ◌+◌, ◌-◌, Bool, ltb, Option, none, some, List, if◌then◌else◌, get_elem?,
}
use opinit_bots.Base.Result.{Result, ok, err, ◌>>=◌}
use opinit_bots.Db.{Bytes}
use opinit_bots.Node.{
  Action, NodeError, wrapped, Block, BlockResults, Handlers, raised, index_out_of_range, fetching,
  handling, raw_block, fails, wrap_with, handle_new_block, handle_raw_block,
}

-- The calls of the RPC client, and whether the context is done when the loop comes to a height.
pub record Client : Type 0 where
  pub block : ℕ → Result ℕ Block
  pub block_results : ℕ → Result ℕ BlockResults
  pub query_block_bulk : ℕ → ℕ → Result ℕ (List Bytes)
  pub to_proto : Block → Result ℕ Block
  pub done : ℕ → Bool

-- The synced height of the node, and the state of the bot that its handlers change.
pub record Position {ℓ} (S : Type ℓ) : Type ℓ where
  pub synced_height : ℕ
  pub state : S

abbrev pub raw_block_query_max_size : ℕ
raw_block_query_max_size = 100

unfoldable pub fetch_new_block : Client → ℕ → Result ℕ (Block × BlockResults)
fetch_new_block client height = do
  block ← client.block height
  results ← client.block_results height
  ok (block, results)

-- A loop from `height` on, by the rounds left: the context, the block, the synced height.
unfoldable pub blocks_loop {ℓ} :
    {S : Type ℓ}
    → (ℕ → Bool)
    → (ℕ → Action S)
    → (rounds height : ℕ) → Position S
    → Option NodeError × Position S
blocks_loop done step zero height p = (none, p)
blocks_loop {S = S} done step (suc rounds) height p =
    let (failure, s) = step height p.state in
    let rest =
      blocks_loop done step rounds (height + 1) (record { synced_height = height; state = s }) in
    if done height then (none, p) else elim failure [
      | some e ↦ (some e, record { synced_height = p.synced_height; state = s })
      | none ↦ rest
    ]

-- The last height that one raw run asks for.
unfoldable pub raw_end : (latest_height synced_height : ℕ) → ℕ
raw_end latest_height synced_height =
    if ltb latest_height (synced_height + raw_block_query_max_size)
    then latest_height
    else synced_height + raw_block_query_max_size

module _ {ℓ} {S : Type ℓ} (n : Handlers S) (client : Client) where
  -- The body of the default loop.
  unfoldable pub process_block : (latest_height height : ℕ) → Action S
  unfolding fetch_new_block wrap_with
  process_block latest_height height s = elim (fetch_new_block client height) [
    | err e ↦ wrap_with fetching (fails (raised e)) s
    | ok (block, results) ↦
        wrap_with handling (handle_new_block n client.to_proto block results latest_height) s
  ]

  unfoldable pub process_blocks_type_default : ℕ → Position S → Option NodeError × Position S
  unfolding blocks_loop process_block
  process_blocks_type_default latest_height p =
      blocks_loop client.done (process_block latest_height) (latest_height - p.synced_height)
        (p.synced_height + 1) p

  -- The body of the raw loop over a bulk that starts at `start`.
  unfoldable pub process_raw_block : (latest_height start : ℕ) → List Bytes → ℕ → Action S
  unfolding handle_raw_block wrap_with
  process_raw_block latest_height start bulk height = elim (get_elem? bulk (height - start)) [
    | none ↦ fails index_out_of_range
    | some bytes ↦ wrap_with raw_block (handle_raw_block n height latest_height bytes)
  ]

  unfoldable pub process_blocks_type_raw : ℕ → Position S → Option NodeError × Position S
  unfolding blocks_loop process_raw_block raw_end wrap_with
  process_blocks_type_raw latest_height p =
      let last = raw_end latest_height p.synced_height in
      elim (client.query_block_bulk (p.synced_height + 1) last) [
        | err e ↦ (some (wrapped fetching (raised e)), p)
        | ok bulk ↦
            blocks_loop client.done (process_raw_block latest_height (p.synced_height + 1) bulk)
              (last - p.synced_height) (p.synced_height + 1) p
      ]
