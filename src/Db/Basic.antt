-- ===== src/Db/Basic.antt =====
-- types.BasicDB, as a store and a stage are used through it.
use opinit_bots.Base.Result.{Result, ok}
use opinit_bots.Db.{Bytes, DbError}
use opinit_bots.Db.Level.{Level, LevelDb, level_get, level_set, level_delete}
use opinit_bots.Db.Stage.{Stage, stage_get, stage_set, stage_delete}

pub record BasicDb (S : Type 0) : Type 0 where
  pub get : S → Bytes → Result DbError Bytes
  pub set : S → Bytes → Bytes → Result DbError S
  pub delete : S → Bytes → Result DbError S

module _ {L : Type 0} (level : Level L) where
  unfoldable pub of_level : BasicDb (LevelDb L)
  of_level = record {
    get = λ db key. level_get level db key;
    set = λ db key value. level_set level db key value;
    delete = λ db key. level_delete level db key;
  }

  -- Writes of a stage do not fail.
  unfoldable pub of_stage : BasicDb (Stage L)
  of_stage = record {
    get = λ s key. stage_get level s key;
    set = λ s key value. ok (stage_set key value s);
    delete = λ s key. ok (stage_delete key s);
  }
