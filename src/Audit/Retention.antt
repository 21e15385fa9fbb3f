-- ===== src/Audit/Retention.antt =====
-- app/services/audit_retention.py: how long the audit log is kept, and the prune.
use Prim.Native.String.{◌++◌ as glue}
use tak_mdm.Base.{
  ℕ, ◌+◌, ◌-◌, ◌*◌, min, String, false, Option, none, some, List, [], ◌∷◌, keep, length,
  if◌then◌else◌, ltb, leb, ◌==◌, ◌||◌, ◌&&◌, not,
}
use tak_mdm.Base.Int.{ℤ, pos, negsuc}
use tak_mdm.Audit.{Library, AuditEvent, Entry, pruned, newest_first, record_entry}

pub record AppSetting : Type 0 where
  pub value : String
  pub updated_by : Option String

-- the row of the setting, if there is one, and the log
pub record AuditStore : Type 0 where
  pub setting : Option AppSetting
  pub log : List AuditEvent

abbrev pub default_days : ℕ
default_days = 365

abbrev pub min_days : ℕ
min_days = 30

abbrev pub day : ℕ
day = 86400000000

-- a window that is in range, 0 for ever
unfoldable pub window_of : ℤ → ℕ
window_of (pos n) = if n == 0 || leb min_days n then n else default_days
window_of (negsuc n) = default_days

-- `select(func.max(AuditEvent.seq))`
unfoldable pub max_seq : List AuditEvent → Option ℕ
unfolding newest_first
max_seq log = elim (newest_first log) [ [] ↦ none | e ∷ l ↦ some e.seq ]

-- the same, of the rows before the cutoff of `window` days
unfoldable pub max_old_seq : ℕ → ℕ → List AuditEvent → Option ℕ
unfolding max_seq
max_old_seq now window log = max_seq (keep (λ e. ltb (e.occurred_at + window * day) now) log)

unfoldable pub delete_up_to : ℕ → List AuditEvent → List AuditEvent
delete_up_to last = keep (λ e. not (leb e.seq last))

-- `rowcount` of the deletion
unfoldable pub removed_count : ℕ → List AuditEvent → ℕ
removed_count last log = length (keep (λ e. leb e.seq last) log)

module _ (lib : Library) where
  unfoldable pub days : Option AppSetting → ℕ
  unfolding window_of
  days none = default_days
  days (some row) = elim (lib.to_int row.value) [ none ↦ default_days | some n ↦ window_of n ]

  -- `raise RetentionError` is `none`. `to_text` prints the windows that are let through.
  unfoldable pub set_days : ℤ → Option String → AuditStore → Option AuditStore
  set_days (negsuc n) by store = none
  set_days (pos n) by store =
      if not (n == 0) && ltb n min_days
      then none
      else some
          (record store { setting = some (record { value = lib.to_text n; updated_by = by }) })

  -- what `prune` records itself as
  unfoldable pub prune_entry : ℕ → ℕ → ℕ → Entry
  prune_entry removed window last = record {
    actor = "system";
    groups = [];
    anonymous = false;
    source_ip = none;
    method = "-";
    path = "/audit/retention";
    status_code = none;
    refusal = none;
    description = some (record {
      action = pruned;
      summary = glue "Removed " (
          glue (lib.to_text removed) (
            glue " entr" (
              glue (if removed == 1 then "y" else "ies") (
                glue " older than "
                  (glue (lib.to_text window) (glue " days, up to #" (lib.to_text last)))))));
      target_type = some "audit";
      target_id = some (lib.to_text last);
    });
  }

  unfoldable pub prune_up_to : ℕ → String → ℕ → ℕ → List AuditEvent → ℕ × List AuditEvent
  unfolding delete_up_to removed_count prune_entry record_entry
  prune_up_to now id window last log =
      let removed = removed_count last log in
      (removed, record_entry lib now id (prune_entry removed window last) (delete_up_to last log))

  -- How many rows are removed, and the log with the prune recorded.
  unfoldable pub prune : ℕ → String → AuditStore → ℕ × List AuditEvent
  unfolding days max_old_seq max_seq prune_up_to
  prune now id store =
      let window = days store.setting in
      if window == 0 then (0, store.log) else elim (max_old_seq now window store.log) [
        | none ↦ (0, store.log)
        | some old ↦ elim (max_seq store.log) [
          | none ↦ (0, store.log)
          | some newest ↦
              let last = min old (newest - 1) in
              if ltb last 1 then (0, store.log) else prune_up_to now id window last store.log
        ]
      ]
