-- ===== src/SyncAction.antt =====
-- web/src/features/directory/sync/page.tsx: the button that syncs the directory, over the status that
-- the query of features/directory/sync/queries.ts holds.
use woodgate.Common.{
  if◌then◌else◌, Text, ◌≡◌, refl, ap, ◌∙◌, Bool, true, false, not, ◌&&◌, ◌||◌, Option, none, some,
  or_else, is_some,
}
use woodgate.Queries.Directory.{
  SyncActivity, idle, queued, running, SyncStatus, sync_refetch_interval,
}

pub data SyncOutcome : Type 0 where
  succeeded failed : SyncOutcome

pub record SyncRun : Type 0 where
  pub queued_at : Text
  pub started_at : Option Text
  pub finished_at : Option Text
  pub outcome : Option SyncOutcome
  pub error : Option Text

-- The status with its last run.
pub record SyncReport : Type 0 where
  pub status : SyncStatus
  pub last_run : Option SyncRun

-- What is rendered: the failure mark with its text, and the properties of the button.
pub record SyncControl : Type 0 where
  pub failure : Option (Option Text)
  pub disabled : Bool
  pub syncing : Bool
  pub last_synced_at : Option Text

abbrev pub is_active : SyncActivity → Bool
is_active idle = false
is_active queued = true
is_active running = true

abbrev pub is_syncing : (trigger_pending : Bool) → Option SyncReport → Bool
is_syncing trigger_pending none = trigger_pending
is_syncing trigger_pending (some report) = is_active report.status.activity || trigger_pending

-- `lastRun`
abbrev pub settled_run : (trigger_pending : Bool) → Option SyncReport → Option SyncRun
settled_run trigger_pending none = none
settled_run trigger_pending (some report) =
    if not (is_active report.status.activity) && not (is_syncing trigger_pending (some report))
    then report.last_run
    else none

abbrev pub failure_of : Option SyncRun → Option SyncOutcome → Option (Option Text)
failure_of (some run) (some failed) = some run.error
failure_of _ _ = none

abbrev pub synced_at : Option SyncRun → Option SyncOutcome → Option Text
synced_at (some run) (some succeeded) =
    some (elim (or_else run.finished_at run.started_at) [ none ↦ run.queued_at | some t ↦ t ])
synced_at _ _ = none

abbrev pub outcome_of : Option SyncRun → Option SyncOutcome
outcome_of none = none
outcome_of (some run) = run.outcome

abbrev pub control : (trigger_pending : Bool) → Option SyncReport → SyncControl
control trigger_pending report =
    let last_run = settled_run trigger_pending report in
    record {
      failure = failure_of last_run (outcome_of last_run);
      disabled = not (is_some report) || is_syncing trigger_pending report;
      syncing = is_syncing trigger_pending report;
      last_synced_at = synced_at last_run (outcome_of last_run);
    }

abbrev pub is_switched_off : Option SyncReport → Bool
is_switched_off none = false
is_switched_off (some report) = not report.status.enabled

-- `DirectorySyncAction`
unfoldable pub directory_sync_action :
    (can_edit trigger_pending : Bool) → Option SyncReport → Option SyncControl
directory_sync_action can_edit trigger_pending report =
    if not can_edit
    then none
    else if is_switched_off report
    then none
    else some (control trigger_pending report)

and_false : (b : Bool) → (b && false) ≡ false
and_false true = refl
and_false false = refl

settled_run-syncing :
    (trigger_pending : Bool) (report : Option SyncReport)
    → is_syncing trigger_pending report ≡ true
    → settled_run trigger_pending report ≡ none
settled_run-syncing trigger_pending none h = refl
settled_run-syncing trigger_pending (some report) h = rw h (
    ap (λ b. if b then report.last_run else none)
      (and_false (not (is_active report.status.activity))))

interval_lem :
    (activity : SyncActivity)
    → sync_refetch_interval (some (record { enabled = true; activity = activity }))
      ≡ some (if is_active activity then 2000 else 30000)
unfolding sync_refetch_interval
interval_lem idle = refl
interval_lem queued = refl
interval_lem running = refl

busy-control :
    (trigger_pending : Bool) (report : Option SyncReport)
    → is_syncing trigger_pending report ≡ true
    → control trigger_pending report
      ≡ record { failure = none; disabled = true; syncing = true; last_synced_at = none }
busy-control trigger_pending none h = rw h
busy-control trigger_pending (some report) h =
    rw (settled_run-syncing trigger_pending (some report) h, h)

-- Where the directory is synced at all and the account may do so: while a sync is queued, runs or is
-- being asked for, the button spins, cannot be pressed and nothing is told of an earlier run; and the
-- status is asked for again every two seconds as long as it tells of a sync, else every thirty.
pub directory_sync_action_busy :
    (trigger_pending : Bool) (report : SyncReport)
    → report.status.enabled ≡ true
    → is_syncing trigger_pending (some report) ≡ true
    → (directory_sync_action true trigger_pending (some report)
        ≡ some (record { failure = none; disabled = true; syncing = true; last_synced_at = none }))
      × (sync_refetch_interval (some report.status)
          ≡ some (if is_active report.status.activity then 2000 else 30000))
unfolding directory_sync_action
directory_sync_action_busy trigger_pending report enabled syncing = (
  rw enabled (ap some (busy-control trigger_pending (some report) syncing)),
  ap (λ e. sync_refetch_interval (some (record { enabled = e; activity = report.status.activity })))
        enabled
      ∙ interval_lem report.status.activity,
)
