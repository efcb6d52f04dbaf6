-- ===== src/Concurrent/Runs.antt =====
-- The operations one after the other are one of the ways in which the sessions take turns.
use shopback_cashback_ledger.Prelude.{List, refl}
use shopback_cashback_ledger.Services.{Services}
use shopback_cashback_ledger.World.{World}
use shopback_cashback_ledger.Spec.{Book, Step, Steps, place, confirm, give, move, here, next}
use shopback_cashback_ledger.History.{view}
use shopback_cashback_ledger.System.{Operation, run}
use shopback_cashback_ledger.System.Refinement.{run-Steps}
use shopback_cashback_ledger.Concurrent.{
  idle, ask_create, ask_confirm, ask_credit, store, read_created, update_order, create_event,
  commit_confirm, read_confirmed, read_rule, create_entry, commit_credit, mark_event, Shared, Reach,
}
use shopback_cashback_ledger.Concurrent.Schedules.{duo, at_rest, from_rest, to_rest, alone}

module _ (S : Services) where
  Step-duo :
      {s : Shared S} {b c : Book S}
      → Step S b c
      → Reach S s (duo S b idle idle)
      → Reach S s (duo S c idle idle)
  Step-duo {c = c} (place o absent fresh e) r =
      alone S (alone S r (ask_create o fresh)) (store o c fresh absent e)
  Step-duo {c = c} (confirm o id time found was absent e) r =
      let read = alone S (alone S r (ask_confirm o.id)) (read_created o.id o found was) in
      let written = alone S read (update_order o.id o found refl) in
      alone S (alone S written (create_event _ id time absent)) (commit_confirm _ _ c e)
  Step-duo {c = c} (give o id rate limit found is absent e) r =
      let read = alone S (alone S r (ask_credit o.id)) (read_confirmed o.id o found refl is) in
      let ruled = alone S read (read_rule o rate limit) in
      alone S (alone S ruled (create_entry o _ id absent)) (commit_credit _ c e)
  Step-duo {c = c} (move x y found same e) r = alone S r (mark_event x y c found same e)

  Steps-duo : {b c : Book S} → Steps S b c → Reach S (at_rest S b) (duo S c idle idle)
  Steps-duo {b} here = from_rest S b
  Steps-duo (next before step) = Step-duo step (Steps-duo before)

  -- Whatever any operations do to orders, credits and events one after the other, with any of their
  -- calls failing, the sessions do too when they take turns in some way, from no session begun to
  -- none left.
  pub run-Reach :
      (ops : List (Operation S)) (w : World S)
      → Reach S (at_rest S (view S w.db)) (at_rest S (view S (run S ops w).db))
  run-Reach ops w = to_rest S (Steps-duo (run-Steps S ops w))
