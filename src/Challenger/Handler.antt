-- ===== src/Challenger/Handler.antt =====
-- challenger/handler.go: the loop that takes challenges from the channel.
pub mod Recorded
pub mod Loop
use opinit_bots.Base.{List, [], ◌∷◌, ◌++◌}
use opinit_bots.Base.Result.{Result, ok, err}
use opinit_bots.Base.Machine.{Machine, after, ◌>>=◌, ◌>>◌, return, fail, self, assign, try}
use opinit_bots.Db.{DbError, Json}
use opinit_bots.Db.Basic.{of_stage}
use opinit_bots.Db.Level.{Level, LevelDb}
use opinit_bots.Db.Stage.{Stage, reset, commit}
use opinit_bots.Challenger.Event.{Challenge}
use opinit_bots.Challenger.Latest.{insert_latest_challenges}
use opinit_bots.Challenger.Records.{
  RecordError, db_failed, stored, delete_pending_challenge, save_challenge,
}

-- The stage writes to the store `stage.parent`; what is reported goes to the log and to sentry.
pub record Challenger (L : Type 0) : Type 0 where
  pub stage : Stage L
  pub latest_challenges : List Challenge
  pub reported : List Challenge

module _ {L : Type 0} where
  -- The stage of a handle after its store has changed; the key function belongs to the same store.
  abbrev pub moved : L → Stage L → Stage L
  moved l s = record s {
    parent = record s.parent { db = l };
    key_handle = record s.key_handle { db = l };
  }

module _ {L : Type 0} (level : Level L) (json : Json Challenge) where
  abbrev Handler {ℓ} : Type ℓ → Type ℓ
  Handler A = Machine RecordError (Challenger L) A

  unfoldable pub report_challenge : Challenge → Handler (Unit {0})
  report_challenge challenge c = (ok tt, record c { reported = c.reported ++ challenge ∷ [] })

  -- A commit that fails leaves the stage.
  abbrev committed : Handler (Unit {0})
  committed c = elim (commit level c.stage) [
    | err e ↦ (err (db_failed e), c)
    | ok l ↦ (ok tt, record c { stage = moved l c.stage })
  ]

  abbrev staging : (Stage L → Result RecordError (Stage L)) → Handler (Unit {0})
  staging write c = elim (write c.stage) [
    | err e ↦ (err e, c)
    | ok s ↦ (ok tt, record c { stage = s })
  ]

  -- One challenge from the channel.
  unfoldable pub take_challenge : Challenge → Handler (Unit {0})
  unfolding report_challenge delete_pending_challenge save_challenge insert_latest_challenges reset
  take_challenge challenge = do
    c ← self
    assign (record c { stage = reset c.stage })
    staging (delete_pending_challenge (of_stage level) challenge)
    staging (save_challenge (of_stage level) json challenge)
    report_challenge challenge
    committed
    c' ← self
    assign
        (record c' { latest_challenges = insert_latest_challenges challenge c'.latest_challenges })

  -- The challenges that are taken before the context is done.
  unfoldable pub challenge_handler : List Challenge → Handler (Unit {0})
  unfolding take_challenge
  challenge_handler [] c = (ok tt, c)
  challenge_handler (challenge ∷ challenges) c =
      after (take_challenge challenge c) (λ u c'. challenge_handler challenges c')
