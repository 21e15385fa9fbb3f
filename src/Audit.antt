-- ===== src/Audit.antt =====
-- app/services/audit.py: the hash chain of the console's audit log. Times are microseconds.
-- `Library` holds what the code calls: sha256 over `json.dumps` of a row's fields, the search of a path for
-- `_TARGET_IN_PATH` with the id in lower case, and the conversions between numbers and texts.
pub mod Retention
pub mod Chain
pub mod Honest
pub mod Preserved
pub mod History
pub mod Diff
pub mod Secrecy
use Prim.Native.String.{◌++◌ as glue}
use tak_mdm.Base.{
  ℕ, zero, suc, String, Bool, true, false, Option, none, some, List, [], ◌∷◌, ◌++◌, if◌then◌else◌,
  ltb, leb, ◌||◌, not,
}
use tak_mdm.Base.Int.{ℤ, pos, negsuc, eqb_ℤ}
use tak_mdm.Base.Sorting.{sort_by}
use tak_mdm.Base.Text.{text_eq}
use tak_mdm.Json.{Value, null, bool, num, str}

pub record Library : Type 0 where
  pub digest : List Value → String
  pub search : String → Option (String × String)
  pub to_text : ℕ → String
  pub to_int : String → Option ℤ

pub record AuditEvent : Type 0 where
  pub id : String
  pub seq : ℕ
  pub occurred_at : ℕ
  pub actor : String
  pub actor_groups : Option String
  pub anonymous : Bool
  pub source_ip : Option String
  pub method : String
  pub path : String
  pub action : String
  pub target_type : Option String
  pub target_id : Option String
  pub summary : Option String
  pub outcome : String
  pub status_code : Option ℕ
  pub prev_hash : String
  pub hash : String

pub record Description : Type 0 where
  pub action : String
  pub summary : String
  pub target_type : Option String
  pub target_id : Option String

-- the keyword arguments of `record`
pub record Entry : Type 0 where
  pub actor : String
  pub groups : List String
  pub anonymous : Bool
  pub source_ip : Option String
  pub method : String
  pub path : String
  pub status_code : Option ℕ
  pub refusal : Option String
  pub description : Option Description

abbrev pub genesis : String
genesis = "0000000000000000000000000000000000000000000000000000000000000000"

abbrev pub pruned : String
pruned = "audit.pruned"

-- `text[:n]`
unfoldable pub clip : ℕ → String → String
clip zero s = ""
clip (suc n) String.[] = ""
clip (suc n) (String.◌∷◌ c s) = String.◌∷◌ c (clip n s)

-- `text or None`
unfoldable pub or_none : String → Option String
or_none s = if text_eq s "" then none else some s

-- `text or default`, of a text that may be missing
unfoldable pub or_else : Option String → Option String → Option String
or_else none other = other
or_else (some s) other = if text_eq s "" then other else some s

-- `",".join(groups)`
unfoldable pub join_groups : List String → String
join_groups [] = ""
join_groups (g ∷ []) = g
join_groups (g ∷ h ∷ gs) = glue g (glue "," (join_groups (h ∷ gs)))

-- `_TARGETS[...]`
unfoldable pub target_type_of : String → String
target_type_of segment =
    if text_eq segment "devices"
    then "device"
    else if text_eq segment "profiles"
    then "policy"
    else if text_eq segment "policies"
    then "policy"
    else if text_eq segment "packages"
    then "app"
    else if text_eq segment "apps"
    then "app"
    else if text_eq segment "groups"
    then "group"
    else if text_eq segment "enrollment-tokens"
    then "enrollment_token"
    else if text_eq segment "files"
    then "file"
    else if text_eq segment "storefronts"
    then "store"
    else "certificate"

-- the status of at least `n`
unfoldable pub at_least : ℕ → Option ℕ → Bool
at_least n none = false
at_least n (some status) = leb n status

-- a refusal that is given and not empty
unfoldable pub refused : Option String → Bool
refused none = false
refused (some s) = not (text_eq s "")

unfoldable pub outcome_of : Option ℕ → Option String → String
unfolding at_least refused
outcome_of status refusal =
    if at_least 500 status
    then "failed"
    else if refused refusal || at_least 400 status
    then "refused"
    else "ok"

unfoldable pub summary_of : Option Description → Option String → Option String
unfolding refused
summary_of description refusal =
    let said : Option String = elim description [ none ↦ none | some d ↦ some d.summary ] in
    elim refusal [
      | none ↦ said
      | some r ↦ if text_eq r "" then said else elim said [
        | none ↦ some (glue "Refused: " r)
        | some s ↦
            if text_eq s ""
            then some (glue "Refused: " r)
            else some (glue s (glue " (refused: " (glue r ")")))
      ]
    ]

abbrev pub text_value : Option String → Value
text_value none = null
text_value (some s) = str s

abbrev pub number_value : Option ℕ → Value
number_value none = null
number_value (some n) = num (pos n)

-- `_canonical`: the fields that a row's hash covers
unfoldable pub canonical : AuditEvent → List Value
canonical e =
    str e.id
    ∷ num (pos e.seq)
    ∷ num (pos e.occurred_at)
    ∷ str e.actor
    ∷ text_value e.actor_groups
    ∷ bool e.anonymous
    ∷ text_value e.source_ip
    ∷ str e.method
    ∷ str e.path
    ∷ str e.action
    ∷ text_value e.target_type
    ∷ text_value e.target_id
    ∷ text_value e.summary
    ∷ str e.outcome
    ∷ number_value e.status_code
    ∷ str e.prev_hash
    ∷ []

-- `order_by(AuditEvent.seq)` and `order_by(AuditEvent.seq.desc())`
unfoldable pub oldest_first : List AuditEvent → List AuditEvent
unfolding sort_by
oldest_first = sort_by (λ a b. ltb a.seq b.seq)

unfoldable pub newest_first : List AuditEvent → List AuditEvent
unfolding sort_by
newest_first = sort_by (λ a b. ltb b.seq a.seq)

-- `_last`
unfoldable pub last_link : List AuditEvent → ℕ × String
unfolding newest_first
last_link log = elim (newest_first log) [ [] ↦ (0, genesis) | e ∷ l ↦ (e.seq, e.hash) ]

abbrev pub succ_ℤ : ℤ → ℤ
succ_ℤ (pos n) = pos (suc n)
succ_ℤ (negsuc zero) = pos 0
succ_ℤ (negsuc (suc n)) = negsuc n

-- the first row of this list that a prune was recorded under
unfoldable pub first_pruned : List AuditEvent → Option (Option String)
first_pruned [] = none
first_pruned (e ∷ l) =
    let rest = first_pruned l in if text_eq e.action pruned then some e.target_id else rest

-- without `reason`, the words for the page
pub record ChainCheck : Type 0 where
  pub ok : Bool
  pub checked : ℕ
  pub broken_at : Option AuditEvent

module _ (lib : Library) where
  unfoldable pub target_from_path : String → Option String × Option String
  unfolding target_type_of
  target_from_path path = elim (lib.search path) [
    | none ↦ (none, none)
    | some (segment, id) ↦ (some (target_type_of segment), some id)
  ]

  -- the row that `record` builds, with the hash still to come
  unfoldable pub new_event : ℕ → String → Entry → ℕ × String → AuditEvent
  unfolding target_from_path clip or_none or_else join_groups outcome_of summary_of
  new_event now id entry (last_seq, last_hash) =
      let target = target_from_path entry.path in
      record {
        id = id;
        seq = suc last_seq;
        occurred_at = now;
        actor = clip 128 (if text_eq entry.actor "" then "unknown" else entry.actor);
        actor_groups = or_none (clip 512 (join_groups entry.groups));
        anonymous = entry.anonymous;
        source_ip = elim (or_else entry.source_ip none) [
          | none ↦ none
          | some ip ↦ some (clip 64 ip)
        ];
        method = clip 8 entry.method;
        path = clip 512 entry.path;
        action = elim entry.description [ none ↦ "request" | some d ↦ d.action ];
        target_type = elim entry.description [
          | none ↦ target.0
          | some d ↦ or_else d.target_type target.0
        ];
        target_id = elim entry.description [
          | none ↦ target.1
          | some d ↦ or_else d.target_id target.1
        ];
        summary = summary_of entry.description entry.refusal;
        outcome = outcome_of entry.status_code entry.refusal;
        status_code = entry.status_code;
        prev_hash = last_hash;
        hash = "";
      }

  unfoldable pub hash_of : AuditEvent → String
  unfolding canonical
  hash_of e = lib.digest (canonical e)

  unfoldable pub record_entry : ℕ → String → Entry → List AuditEvent → List AuditEvent
  unfolding new_event hash_of last_link
  record_entry now id entry log =
      let event = new_event now id entry (last_link log) in
      log ++ record event { hash = hash_of event } ∷ []

  -- `_expected_first`
  unfoldable pub expected_first : List AuditEvent → ℤ
  unfolding newest_first first_pruned
  expected_first log = elim (first_pruned (newest_first log)) [
    | none ↦ pos 1
    | some none ↦ pos 1
    | some (some text) ↦
        if text_eq text ""
        then pos 1
        else elim (lib.to_int text) [ none ↦ pos 1 | some n ↦ succ_ℤ n ]
  ]

  -- The row is not what the loop of `verify` wants: the three tests, `previous` being `none` at the
  -- oldest row.
  unfoldable pub is_broken : ℤ → Option String → AuditEvent → Bool
  unfolding hash_of
  is_broken expected previous row =
      elim previous [
        | none ↦ not (eqb_ℤ (pos row.seq) expected)
        | some hash ↦ not (text_eq row.prev_hash hash)
      ]
      || not (text_eq (hash_of row) row.hash)

  unfoldable pub verify_loop : ℤ → Option String → ℕ → List AuditEvent → ChainCheck
  unfolding is_broken
  verify_loop expected previous checked [] = record {
    ok = true;
    checked = checked;
    broken_at = none;
  }
  verify_loop expected previous checked (row ∷ rows) =
      let rest = verify_loop expected (some row.hash) (suc checked) rows in
      if is_broken expected previous row
      then record { ok = false; checked = checked; broken_at = some row }
      else rest

  unfoldable pub verify : List AuditEvent → ChainCheck
  unfolding verify_loop expected_first oldest_first
  verify log = verify_loop (expected_first log) none 0 (oldest_first log)
