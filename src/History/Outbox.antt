-- ===== src/History/Outbox.antt =====
-- The calls on the outbox of the publisher and of the replay command: they move events on.
use shopback_cashback_ledger.Prelude.{
  ℕ, String, Bool, true, false, some, ◌≡◌, ap, ◌∙◌, text_comparable, inl, inr, Option-cases,
  Bool-cases, arith, if◌then◌else◌,
}
use shopback_cashback_ledger.Services.{Services}
use shopback_cashback_ledger.World.{Db}
use shopback_cashback_ledger.Calls.Respects.{ActionRespects}
use shopback_cashback_ledger.Queries.{
  find_unique, find_many, update, update_found, update_missing, update_many, update_many_found,
  update_many_missing, update_many_refused, find_own, on_outbox,
}
use shopback_cashback_ledger.Orders.{OutboxRow}
use shopback_cashback_ledger.Outbox.{is_claimable, add_attempt, set_sent, set_failed, set_retry}
use shopback_cashback_ledger.Replay.{set_outbox_pending}
use shopback_cashback_ledger.Spec.Maps.{put}
use shopback_cashback_ledger.Spec.{SameMessage, Steps, Steps-one, here, move}
use shopback_cashback_ledger.History.{view, Follows}
use shopback_cashback_ledger.History.Actions.{find-put}

module _ (S : Services) where
  -- A change of a row that the consumer does not see.
  abbrev pub Moves : (OutboxRow S → OutboxRow S) → Type 0
  Moves f = (e : OutboxRow S) → SameMessage S e (f e)

  add_attempt-Moves : Moves (add_attempt S)
  add_attempt-Moves e = ground arith

  set_sent-Moves : (time : ℕ) → Moves (set_sent S time)
  set_sent-Moves time e = ground arith

  failed_or_retry-Moves :
      (over : Bool) (time : ℕ) → Moves (if over then set_failed S else set_retry S time)
  failed_or_retry-Moves true time e = ground arith
  failed_or_retry-Moves false time e = ground arith

  set_pending-Moves : (time attempts : ℕ) → Moves (set_outbox_pending S time attempts)
  set_pending-Moves time attempts e = ground arith

module _ {S : Services} where
  -- The row is written under the id of the old one.
  written :
      (d : Db S) (f : OutboxRow S → OutboxRow S) (e : OutboxRow S)
      → SameMessage S e (f e)
      → (λ id. S.outbox.find id (S.outbox.write (f e) d.outbox))
        ≡ put e.id (f e) (λ id. S.outbox.find id d.outbox)
  written d f e same =
      find-put S.outbox (f e) d.outbox
      ∙ ap (λ k. put k (f e) (λ id. S.outbox.find id d.outbox)) same.id

  moved-follows :
      (f : OutboxRow S → OutboxRow S) (d : Db S) (id : String) (e : OutboxRow S)
      → Moves S f
      → S.outbox.find id d.outbox ≡ some e
      → Steps S (view S d) (view S (record d { outbox = S.outbox.write (f e) d.outbox }))
  moved-follows f d id e same found = Steps-one S (
      move e (f e) (find_own S.outbox id e d.outbox found) (same e)
        (λ i. record (view S d) { outbox = written d f e (same e) i }))

  update-follows :
      (id : String) (f : OutboxRow S → OutboxRow S)
      → Moves S f
      → ActionRespects (Follows S) (on_outbox S (update S.outbox id f))
  update-follows id f same = record {
    at = λ d. elim (Option-cases (S.outbox.find id d.outbox)) [
      | inl absent ↦ rw (update_missing S.outbox id f d.outbox absent) here
      | inr (e, found) ↦
          rw (update_found S.outbox id f d.outbox found) (moved-follows f d id e same found)
    ];
  }

  pub find_events-follows :
      (n : ℕ) (p : OutboxRow S → Bool)
      → ActionRespects (Follows S) (on_outbox S (find_many S.outbox n p))
  find_events-follows n p = record { at = λ d. here }

  pub find_event-follows :
      (id : String) → ActionRespects (Follows S) (on_outbox S (find_unique S.outbox id))
  find_event-follows id = record { at = λ d. here }

  pub claim-follows :
      (id : String)
      → ActionRespects
          (Follows S)
          (on_outbox S (update_many S.outbox id (is_claimable S) (add_attempt S)))
  claim-follows id = record {
    at = λ d. elim (Option-cases (S.outbox.find id d.outbox)) [
      | inl absent ↦
          rw (update_many_missing S.outbox id (is_claimable S) (add_attempt S) d.outbox absent) here
      | inr (e, found) ↦ elim (Bool-cases (is_claimable S e)) [
        | inl free ↦
            rw (update_many_found S.outbox id (is_claimable S) (add_attempt S) d.outbox found free)
              (moved-follows (add_attempt S) d id e (add_attempt-Moves S) found)
        | inr taken ↦
            rw
              (update_many_refused S.outbox id (is_claimable S) (add_attempt S) d.outbox found
                taken)
              here
      ]
    ];
  }

  pub set_sent-follows :
      (id : String) (time : ℕ)
      → ActionRespects (Follows S) (on_outbox S (update S.outbox id (set_sent S time)))
  set_sent-follows id time = update-follows id (set_sent S time) (set_sent-Moves S time)

  pub failed_or_retry-follows :
      (id : String) (over : Bool) (time : ℕ)
      → ActionRespects
          (Follows S)
          (on_outbox S (update S.outbox id (if over then set_failed S else set_retry S time)))
  failed_or_retry-follows id over time =
      update-follows id (if over then set_failed S else set_retry S time)
        (failed_or_retry-Moves S over time)

  pub set_pending-follows :
      (id : String) (time attempts : ℕ)
      → ActionRespects
          (Follows S)
          (on_outbox S (update S.outbox id (set_outbox_pending S time attempts)))
  set_pending-follows id time attempts =
      update-follows id (set_outbox_pending S time attempts) (set_pending-Moves S time attempts)

pub ruleset outbox_rules = (
  find_events-follows, find_event-follows, claim-follows, set_sent-follows, failed_or_retry-follows,
  set_pending-follows,
)
