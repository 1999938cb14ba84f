-- ===== src/Challenger/Handler/Loop.antt =====
-- What the loop over the channel leaves, after all challenges that it has taken.
use opinit_bots.Base.{
  ◌≡◌, refl, ap, ◌∙◌, sym, false, List, [], ◌∷◌, ◌++◌, inl, inr, arith, All, append_assoc, subst,
}
use mathlib.Core.List.{append-nil}
use opinit_bots.Base.Bytes.{bytes_equal, bytes_equal_refl}
use opinit_bots.Base.Result.{ok, err}
use opinit_bots.Base.Machine.{after-ok}
use opinit_bots.Db.{not_found, Json}
use opinit_bots.Db.Level.{Level, LevelLaws, level_get}
use opinit_bots.Challenger.Event.{Challenge}
use opinit_bots.Challenger.Keys.{
  prefixed_challenge_event_time, prefixed_pending_challenge, prefixed_challenge,
}
use opinit_bots.Challenger.Latest.Greatest.{insert_all}
use opinit_bots.Challenger.Handler.Recorded.{key_of, IsOwn, IsRecorded, take_challenge_lem}
use opinit_bots.Challenger.Handler.{Challenger, take_challenge, challenge_handler}

module _ {L : Type 0} (level : Level L) (laws : LevelLaws level) (json : Json Challenge) where
  take_challenge-IsRecorded :
      (challenge : Challenge) (c c' : Challenger L)
      → IsOwn level laws json c
      → take_challenge level json challenge c ≡ (ok tt, c')
      → IsRecorded level laws json challenge c c'
  take_challenge-IsRecorded challenge c c' own run =
      elim (take_challenge_lem level laws json challenge c own) [
        | inl (e, d, failed, same) ↦ absurd (ground (arith, ap (λ r. r.0) (sym run ∙ failed)))
        | inr (d, ran, recorded) ↦
            subst (λ d. IsRecorded level laws json challenge c d) (ap (λ r. r.1) (sym ran ∙ run))
              recorded
      ]

  -- None of the challenges is pending.
  abbrev pub NonePending : List Challenge → Challenger L → Type 0
  NonePending challenges c =
      All
        (λ challenge.
          level_get level c.stage.parent (prefixed_pending_challenge challenge.id) ≡ err not_found)
        challenges

  pending-distinct :
      (challenge other : Challenge)
      → bytes_equal (key_of challenge) (prefixed_pending_challenge other.id) ≡ false
  unfolding bytes_equal prefixed_pending_challenge prefixed_challenge prefixed_challenge_event_time
  pending-distinct challenge other = refl

  -- What is not pending stays so.
  stays :
      (challenge other : Challenge) (c c' : Challenger L)
      → IsRecorded level laws json challenge c c'
      → level_get level c.stage.parent (prefixed_pending_challenge other.id) ≡ err not_found
      → level_get level c'.stage.parent (prefixed_pending_challenge other.id) ≡ err not_found
  stays challenge other c c' recorded missing = ground (
    arith,
    recorded.read (prefixed_pending_challenge other.id),
    pending-distinct challenge other,
    missing,
  )

  gone :
      (challenge : Challenge) (c c' : Challenger L)
      → IsRecorded level laws json challenge c c'
      → level_get level c'.stage.parent (prefixed_pending_challenge challenge.id) ≡ err not_found
  gone challenge c c' recorded = ground (
    arith,
    recorded.read (prefixed_pending_challenge challenge.id),
    pending-distinct challenge challenge,
    bytes_equal_refl (prefixed_pending_challenge challenge.id),
  )

  handled-stays :
      (challenges : List Challenge) (other : Challenge) (c c' : Challenger L)
      → IsOwn level laws json c
      → challenge_handler level json challenges c ≡ (ok tt, c')
      → level_get level c.stage.parent (prefixed_pending_challenge other.id) ≡ err not_found
      → level_get level c'.stage.parent (prefixed_pending_challenge other.id) ≡ err not_found
  unfolding challenge_handler
  handled-stays [] other c c' own run missing =
      subst
        (λ d. level_get level d.stage.parent (prefixed_pending_challenge other.id) ≡ err not_found)
        (ap (λ r. r.1) run) missing
  handled-stays (challenge ∷ challenges) other c c' own run missing =
      let (u, d, first, rest) =
        after-ok (take_challenge level json challenge c)
          (λ u d. challenge_handler level json challenges d) run in
      let recorded = take_challenge-IsRecorded challenge c d own first in
      handled-stays challenges other d c' recorded.own rest
        (stays challenge other c d recorded missing)

  -- When the stage keys by the prefix of its store, and the loop has taken challenges from the channel without
  -- an error, then none of them is pending in the store, they are reported in their order, and the
  -- latest challenges are those with all of them inserted.
  pub challenge_handler_lem :
      (challenges : List Challenge) (c c' : Challenger L)
      → IsOwn level laws json c
      → challenge_handler level json challenges c ≡ (ok tt, c')
      → NonePending challenges c'
        × (c'.reported ≡ c.reported ++ challenges)
        × (c'.latest_challenges ≡ insert_all c.latest_challenges challenges)
  unfolding challenge_handler insert_all
  challenge_handler_lem [] c c' own run =
      let same = ap (λ r. r.1) run in
      (
        tt,
        ap (λ d. d.reported) (sym same) ∙ sym (append-nil c.reported),
        ap (λ d. d.latest_challenges) (sym same),
      )
  challenge_handler_lem (challenge ∷ challenges) c c' own run =
      let (u, d, first, rest) =
        after-ok (take_challenge level json challenge c)
          (λ u d. challenge_handler level json challenges d) run in
      let recorded = take_challenge-IsRecorded challenge c d own first in
      let (none_pending, reported, latest) =
        challenge_handler_lem challenges d c' recorded.own rest in
      (
        (
          handled-stays challenges challenge d c' recorded.own rest (gone challenge c d recorded),
          none_pending,
        ),
        reported
            ∙ ap (λ t. t ++ challenges) recorded.reported
            ∙ append_assoc c.reported (challenge ∷ []) challenges,
        latest ∙ ap (λ t. insert_all t challenges) recorded.latest,
      )
