-- ===== src/Replay/Command.antt =====
-- The command of apps/worker/src/replay.ts: `main`, and what `replayInbox` and `replayOutbox` read
-- of their arguments. Prisma refuses a status that the schema does not have, and a limit that is no
-- whole number; a limit below zero is not modelled.
use shopback_cashback_ledger.Prelude.{
  String, Option, none, some, List, ◌==◌, text_comparable, text_append, ◌≡◌, refl, ◌∙◌, All,
  Bool-cases, inl, inr, if◌then◌else◌,
}
use shopback_cashback_ledger.Schema.{InboxStatus, OutboxStatus, pending, processed, sent, failed}
use shopback_cashback_ledger.Errors.{usage, invalid_argument}
use shopback_cashback_ledger.Effect.{pure, raise, ◌>>=◌}
use shopback_cashback_ledger.Services.{Services}
use shopback_cashback_ledger.World.{World, Io}
use shopback_cashback_ledger.Replay.{InboxArgs, replay_inbox, replay_outbox}
use shopback_cashback_ledger.Replay.Arguments.{
  Args, get, parse_args, parse_args-printed, printed, last_value, IsValue, resets_attempts,
  reset_attempts_of,
}

abbrev pub inbox_status_of_text : String → Option InboxStatus
inbox_status_of_text t =
    if t == "PENDING"
    then some pending
    else if t == "PROCESSED"
    then some processed
    else if t == "FAILED"
    then some failed
    else none

abbrev pub outbox_status_of_text : String → Option OutboxStatus
outbox_status_of_text t =
    if t == "PENDING"
    then some pending
    else if t == "SENT"
    then some sent
    else if t == "FAILED"
    then some failed
    else none

-- `sourceEventId ? { sourceEventId } : { status }`: the status is not looked at beside an id.
abbrev pub status_text : Option String → Option String → Option String
status_text none status = status
status_text (some id) status = if id == "" then status else none

module _ (S : Services) where
  module _ {A : Type 0} where
    abbrev pub or_refused : Option A → Io S (Option A)
    or_refused none = raise invalid_argument
    or_refused (some a) = pure (some a)

    -- An argument that Prisma checks.
    abbrev pub checked : (String → Option A) → Option String → Io S (Option A)
    checked read none = pure none
    checked read (some text) = or_refused (read text)

  unfoldable pub inbox_command : Args → Io S (Unit {0})
  inbox_command args = do
    status ←
        checked inbox_status_of_text (status_text (get "sourceEventId" args) (get "status" args))
    limit ← checked S.count_of_text (get "limit" args)
    replay_inbox S (record {
      source_event_id = get "sourceEventId" args;
      status = status;
      limit = limit;
      reset_attempts = reset_attempts_of args;
    })

  unfoldable pub outbox_command : Args → Io S (Unit {0})
  outbox_command args = do
    status ← checked outbox_status_of_text (get "status" args)
    limit ← checked S.count_of_text (get "limit" args)
    replay_outbox S
        (record { status = status; limit = limit; reset_attempts = reset_attempts_of args })

  -- `must(process.argv[2], 'cmd')`, and the choice by it
  abbrev pub choose : String → Args → Io S (Unit {0})
  choose cmd args =
      if cmd == "inbox"
      then inbox_command args
      else if cmd == "outbox"
      then outbox_command args
      else raise (usage (text_append "Unknown cmd: " cmd))

  unfoldable pub run_command : Option String → List String → Io S (Unit {0})
  unfolding inbox_command outbox_command
  run_command none argv = raise (usage "Missing arg/env: cmd")
  run_command (some cmd) argv =
      if cmd == "" then raise (usage "Missing arg/env: cmd") else choose cmd (parse_args argv)

  -- What a command line asks of the inbox, if it names no status and no limit.
  abbrev pub asked : List (String × String) → InboxArgs
  asked flags = record {
    source_event_id = last_value "sourceEventId" none flags;
    status = none;
    limit = none;
    reset_attempts = resets_attempts (last_value "resetAttempts" none flags);
  }

  no_status_text : (source : Option String) → status_text source none ≡ none
  no_status_text none = refl
  no_status_text (some id) = elim (Bool-cases (id == "")) [
    | inl empty ↦ rw empty refl
    | inr full ↦ rw full refl
  ]

  inbox_command-asked :
      (args : Args) (source reset : Option String) (w : World S)
      → get "sourceEventId" args ≡ source
      → get "status" args ≡ none
      → get "limit" args ≡ none
      → get "resetAttempts" args ≡ reset
      → inbox_command args w
        ≡ replay_inbox S
            (record {
              source_event_id = source;
              status = none;
              limit = none;
              reset_attempts = resets_attempts reset;
            })
            w
  unfolding inbox_command pure ◌>>=◌
  inbox_command-asked args source reset w a b c d = rw (a, b, c, d, no_status_text source) refl

  -- If flags are written as `--key value` with values that are not empty and do not start with `--`,
  -- and name no status and no limit: then the command `inbox` replays what the last
  -- `sourceEventId` and `resetAttempts` ask for.
  pub run_command-inbox :
      (flags : List (String × String)) (w : World S)
      → All IsValue flags
      → last_value "status" none flags ≡ none
      → last_value "limit" none flags ≡ none
      → run_command (some "inbox") (printed flags) w ≡ replay_inbox S (asked flags) w
  unfolding run_command
  run_command-inbox flags w h no_status no_limit =
      inbox_command-asked (parse_args (printed flags)) _ _ w
        (parse_args-printed flags "sourceEventId" h)
        (parse_args-printed flags "status" h ∙ no_status)
        (parse_args-printed flags "limit" h ∙ no_limit) (parse_args-printed flags "resetAttempts" h)
