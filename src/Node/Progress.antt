-- ===== src/Node/Progress.antt =====
-- What the loops over the heights do to the synced height.
use opinit_bots.Base.{
  ℕ, zero, suc, ◌+◌, ◌-◌, ◌≡◌, ◌≤◌, ◌<◌, Bool, true, Option, none, some, List, arith, refl, ◌⊎◌,
  Bool-cases, Option-cases, Result-cases, inl, inr, subst,
}
use opinit_bots.Base.Result.{ok, err}
use opinit_bots.Db.{Bytes}
use opinit_bots.Node.{Action, NodeError, Handlers, wrapped, fetching, raised}
use opinit_bots.Node.Process.{
  Client, Position, blocks_loop, process_block, process_blocks_type_default, process_raw_block,
  raw_end, process_blocks_type_raw, raw_block_query_max_size,
}

module _ {S : Type 0} (done : ℕ → Bool) (step : ℕ → Action S) where
  -- The blocks after one height up to another, each once and in order, all handled without an error.
  pub data Steps : ℕ → S → ℕ → S → Type 0 where
    here : {h : ℕ} {s : S} → Steps h s h s
    block :
        {h k : ℕ} {s s' t : S} → step (h + 1) s ≡ (none, s') → Steps (h + 1) s' k t → Steps h s k t

  -- What a run up to the height `last` can come to.
  pub data Outcome (last : ℕ) (p : Position S) : Option NodeError → Position S → Type 0 where
    caught_up :
        {s : S}
        → Steps p.synced_height p.state last s
        → Outcome last p none (record { synced_height = last; state = s })
    cancelled :
        {h : ℕ} {s : S}
        → h < last
        → Steps p.synced_height p.state h s
        → done (h + 1) ≡ true
        → Outcome last p none (record { synced_height = h; state = s })
    stopped :
        {h : ℕ} {s s' : S} {e : NodeError}
        → h < last
        → Steps p.synced_height p.state h s
        → step (h + 1) s ≡ (some e, s')
        → Outcome last p (some e) (record { synced_height = h; state = s' })

  later :
      {last h : ℕ} {s s' : S} {e : Option NodeError} {q : Position S}
      → step (h + 1) s ≡ (none, s')
      → Outcome last (record { synced_height = h + 1; state = s' }) e q
      → Outcome last (record { synced_height = h; state = s }) e q
  later ran (caught_up steps) = caught_up (block ran steps)
  later ran (cancelled below steps over) = cancelled below (block ran steps) over
  later ran (stopped below steps failed) = stopped below (block ran steps) failed

  abbrev at : ℕ → S → Position S
  at h s = record { synced_height = h; state = s }

  finished : (h last : ℕ) (s : S) → h ≡ last → Outcome last (at h s) none (at h s)
  finished h last s e = subst (λ l. Outcome l (at h s) none (at h s)) e (caught_up here)

  pub blocks_loop-Outcome :
      (rounds h last : ℕ) (s : S)
      → h + rounds ≡ last
      → let p : Position S = record { synced_height = h; state = s } in
        let r = blocks_loop done step rounds (h + 1) p in Outcome last p r.0 r.1
  unfolding blocks_loop
  blocks_loop-Outcome zero h last s e = finished h last s (omega arith)
  blocks_loop-Outcome (suc rounds) h last s e = elim (Bool-cases (done (h + 1))) [
    | inl over ↦ rw over (cancelled (omega arith) here over)
    | inr going ↦
        let s' = (step (h + 1) s).1 in
        elim (Option-cases (step (h + 1) s).0) [
          | inl fine ↦
              let ran : step (h + 1) s ≡ (none, s') = λ i. (fine i, s') in
              rw (going, fine)
                (later ran (blocks_loop-Outcome rounds (h + 1) last s' (omega arith)))
          | inr (failure, failed) ↦
              rw (going, failed) (stopped (omega arith) here (λ i. (failed i, s')))
        ]
  ]

module _ {S : Type 0} (n : Handlers S) (client : Client) where
  -- A default run that starts no higher than the latest height either catches up with it, is cancelled
  -- before some height, or stops at the first block that fails, with the error of that block. In each
  -- case the synced height is that of the last block before, and all blocks up to it have been handled
  -- without an error, once each and in the order of their heights.
  pub process_blocks_type_default-Outcome :
      (latest_height : ℕ) (p : Position S)
      → p.synced_height ≤ latest_height
      → let (failure, p') = process_blocks_type_default n client latest_height p in
        Outcome client.done (process_block n client latest_height) latest_height p failure p'
  unfolding process_blocks_type_default
  process_blocks_type_default-Outcome latest_height p below =
      blocks_loop-Outcome client.done (process_block n client latest_height)
        (latest_height - p.synced_height) p.synced_height latest_height p.state (omega arith)

  raw_end_bounds :
      (latest_height synced_height : ℕ)
      → synced_height ≤ latest_height
      → (synced_height ≤ raw_end latest_height synced_height)
        × (raw_end latest_height synced_height ≤ latest_height)
        × (raw_end latest_height synced_height ≤ synced_height + raw_block_query_max_size)
  unfolding raw_end
  raw_end_bounds latest_height synced_height below = (ground arith, ground arith, ground arith)

  -- A raw run that starts no higher than the latest height ends at most at that height and at most 100
  -- blocks further. If the bulk of blocks cannot be fetched, nothing changes. Otherwise the run catches
  -- up with that end, is cancelled before some height, or stops at the first block that fails; in each
  -- case the synced height is that of the last block before, and all blocks up to it have been handled
  -- without an error, once each and in the order of their heights.
  pub process_blocks_type_raw-Outcome :
      (latest_height : ℕ) (p : Position S)
      → p.synced_height ≤ latest_height
      → let last = raw_end latest_height p.synced_height in
        let (failure, p') = process_blocks_type_raw n client latest_height p in
        (last ≤ latest_height)
        × (last ≤ p.synced_height + raw_block_query_max_size)
        × (((e : ℕ) × (client.query_block_bulk (p.synced_height + 1) last ≡ err e)
              × (failure ≡ some (wrapped fetching (raised e)))
              × (p' ≡ p))
            ⊎ ((bulk : List Bytes) × (client.query_block_bulk (p.synced_height + 1) last ≡ ok bulk)
                × Outcome client.done
                    (process_raw_block n client latest_height (p.synced_height + 1) bulk)
                    last
                    p
                    failure
                    p'))
  unfolding process_blocks_type_raw
  process_blocks_type_raw-Outcome latest_height p below =
      let (above, bound, size) = raw_end_bounds latest_height p.synced_height below in
      elim (Result-cases
        (client.query_block_bulk (p.synced_height + 1) (raw_end latest_height p.synced_height))) [
          | inl (bulk, found) ↦ (
            bound,
            size,
            inr (
              bulk,
              found,
              rw (found, process_blocks_type_raw)
                  (blocks_loop-Outcome client.done
                    (process_raw_block n client latest_height (p.synced_height + 1) bulk)
                    (raw_end latest_height p.synced_height - p.synced_height) p.synced_height
                    (raw_end latest_height p.synced_height) p.state (omega arith)),
            ),
          )
          | inr (e, failed) ↦ (
            bound,
            size,
            inl (
              e,
              failed,
              rw (failed, process_blocks_type_raw) refl,
              rw (failed, process_blocks_type_raw) refl,
            ),
          )
        ]
