-- ===== src/Commands.antt =====
-- app/services/commands.py: the queue of one-shot commands, on the `DeviceCommand` rows of
-- app/db/models.py. Times are whole seconds. The clock, the fresh id of a row and the column
-- default of `created_at` are arguments. The children hold the proofs.
pub mod Rows
pub mod History
pub mod Soundness
pub mod Delivery
pub mod Results
use tak_mdm.Base.{
  ℕ, zero, suc, ◌+◌, ◌*◌, String, Bool, true, false, Option, none, some, List, [], ◌∷◌, ◌++◌, map,
  keep, any, if◌then◌else◌, not, ltb, leb, ◌==◌, ◌&&◌, ◌||◌,
}
use tak_mdm.Base.Text.{text_eq}
use tak_mdm.Base.Int.{ℤ, pos, eqb_ℤ}
use tak_mdm.Json.{
  Value, Items, Fields, null, bool, num, str, arr, obj, nil, cons, end, field, lookup_field,
}

pub data CommandType : Type 0 where
  reboot : CommandType
  lock : CommandType
  ping : CommandType
  wipe : CommandType
  locate : CommandType
  screenshot : CommandType
  clear_app_data : CommandType
  collect_logs : CommandType
  package_report : CommandType
  extract_atak_prefs : CommandType

pub data CommandStatus : Type 0 where
  pending : CommandStatus
  dispatched : CommandStatus
  succeeded : CommandStatus
  failed : CommandStatus
  expired : CommandStatus

pub record DeviceCommand : Type 0 where
  pub id : String
  pub device_id : String
  pub command_type : CommandType
  pub params : Fields
  pub status : CommandStatus
  pub created_at : ℕ
  pub expires_at : ℕ
  pub dispatched_at : Option ℕ
  pub completed_at : Option ℕ
  pub attempts : ℕ
  pub max_attempts : ℕ
  pub result : Option Fields
  pub error : Option String

-- The table, in the order of insertion, and the devices that `schedule_wake` queued.
pub record Queue : Type 0 where
  pub commands : List DeviceCommand
  pub wakes : List String

-- `status.in_([PENDING, DISPATCHED])`
unfoldable pub is_open : CommandStatus → Bool
is_open pending = true
is_open dispatched = true
is_open succeeded = false
is_open failed = false
is_open expired = false

unfoldable pub is_live : ℕ → DeviceCommand → Bool
unfolding is_open
is_live now c =
    if is_open c.status then ltb now c.expires_at && ltb c.attempts c.max_attempts else false

-- `DEFAULT_TTL_HOURS`, which has a row for every type
unfoldable pub default_ttl_hours : CommandType → ℕ
default_ttl_hours locate = 6
default_ttl_hours ping = 1
default_ttl_hours screenshot = 6
default_ttl_hours lock = 72
default_ttl_hours reboot = 24
default_ttl_hours clear_app_data = 168
default_ttl_hours extract_atak_prefs = 168
default_ttl_hours wipe = 720
default_ttl_hours collect_logs = 12
default_ttl_hours package_report = 12

-- The truth of a value, as `not params.get("package_name")` takes it.
unfoldable pub truthy : Value → Bool
truthy null = false
truthy (bool b) = b
truthy (num n) = not (eqb_ℤ n (pos 0))
truthy (str s) = not (text_eq s "")
truthy (arr nil) = false
truthy (arr (cons v vs)) = true
truthy (obj end) = false
truthy (obj (field k v fs)) = true

unfoldable pub has_package_name : Fields → Bool
unfolding truthy
has_package_name params = elim (lookup_field "package_name" params) [
  | none ↦ false
  | some v ↦ truthy v
]

unfoldable pub needs_package_name : CommandType → Bool
needs_package_name clear_app_data = true
needs_package_name _ = false

-- `ttl_hours or DEFAULT_TTL_HOURS.get(...)`
unfoldable pub ttl_of : Option ℕ → CommandType → ℕ
unfolding default_ttl_hours
ttl_of none t = default_ttl_hours t
ttl_of (some zero) t = default_ttl_hours t
ttl_of (some (suc n)) t = suc n

-- the row that `enqueue` adds, with the defaults of its columns
unfoldable pub new_command : ℕ → String → String → CommandType → Fields → ℕ → ℕ → DeviceCommand
new_command now id device_id command_type params ttl max_attempts = record {
  id = id;
  device_id = device_id;
  command_type = command_type;
  params = params;
  status = pending;
  created_at = now;
  expires_at = now + ttl * 3600;
  dispatched_at = none;
  completed_at = none;
  attempts = 0;
  max_attempts = max_attempts;
  result = none;
  error = none;
}

-- `raise CommandError` is `none`.
unfoldable pub enqueue :
    ℕ
    → String
    → String
    → CommandType
    → Fields
    → Option ℕ
    → ℕ
    → Queue
    → Option (DeviceCommand × Queue)
unfolding ttl_of has_package_name needs_package_name new_command
enqueue now id device_id command_type params ttl_hours max_attempts q =
    if needs_package_name command_type && not (has_package_name params)
    then none
    else some (
      new_command now id device_id command_type params (ttl_of ttl_hours command_type) max_attempts,
      record {
        commands =
            q.commands
            ++ new_command now id device_id command_type params (ttl_of ttl_hours command_type)
                max_attempts
              ∷ [];
        wakes = q.wakes ++ device_id ∷ [];
      },
    )

-- the rows that the two queries of a device's open commands select
unfoldable pub is_selected : String → DeviceCommand → Bool
unfolding is_open
is_selected device_id c = text_eq c.device_id device_id && is_open c.status

unfoldable pub stale_reason : DeviceCommand → String
stale_reason c =
    if leb c.max_attempts c.attempts then "exceeded max attempts" else "expired before delivery"

-- one round of the loop of `expire_stale`
unfoldable pub expire_one : ℕ → String → DeviceCommand → DeviceCommand
unfolding is_selected is_live stale_reason
expire_one now device_id c =
    if is_selected device_id c && not (is_live now c)
    then record c { status = expired; completed_at = some now; error = some (stale_reason c) }
    else c

unfoldable pub count_stale : ℕ → String → List DeviceCommand → ℕ
unfolding is_selected is_live
count_stale now device_id [] = 0
count_stale now device_id (c ∷ l) =
    let rest = count_stale now device_id l in
    if is_selected device_id c && not (is_live now c) then suc rest else rest

unfoldable pub expire_stale : ℕ → String → List DeviceCommand → ℕ × List DeviceCommand
unfolding count_stale expire_one
expire_stale now device_id l = (count_stale now device_id l, map (expire_one now device_id) l)

-- one round of the loop of `claim_for_delivery`
unfoldable pub claim_one : ℕ → String → DeviceCommand → DeviceCommand
unfolding is_selected is_live
claim_one now device_id c =
    if is_selected device_id c && is_live now c
    then record c { status = dispatched; dispatched_at = some now; attempts = suc c.attempts }
    else c

-- `order_by(DeviceCommand.created_at)`, the older row of a tie first
unfoldable pub place_created : DeviceCommand → List DeviceCommand → List DeviceCommand
place_created c [] = c ∷ []
place_created c (d ∷ l) = if ltb d.created_at c.created_at then d ∷ place_created c l else c ∷ d ∷ l

unfoldable pub order_created : List DeviceCommand → List DeviceCommand
unfolding place_created
order_created [] = []
order_created (c ∷ l) = place_created c (order_created l)

-- The two moments are the clock in `expire_stale` and the clock after it.
unfoldable pub claim_for_delivery :
    ℕ → ℕ → String → List DeviceCommand → List DeviceCommand × List DeviceCommand
unfolding expire_stale claim_one order_created is_selected is_live
claim_for_delivery expire_now now device_id l =
    let open_rows = (expire_stale expire_now device_id l).1 in
    let open_commands = order_created (keep (is_selected device_id) open_rows) in
    let claimed = keep (is_live now) open_commands in
    (map (claim_one now device_id) claimed, map (claim_one now device_id) open_rows)

pub record Report : Type 0 where
  pub command_id : String
  pub succeeded_flag : Bool
  pub result : Option Fields
  pub error : Option String

-- `by_id.get(report.command_id)`
unfoldable pub is_row_of : String → String → DeviceCommand → Bool
is_row_of device_id command_id c = text_eq c.device_id device_id && text_eq c.id command_id

-- one round of the loop of `record_results`, on the row that the report names
unfoldable pub record_one : ℕ → String → Report → DeviceCommand → DeviceCommand
unfolding is_row_of is_open
record_one now device_id r c =
    if is_row_of device_id r.command_id c && is_open c.status
    then record c {
      status = if r.succeeded_flag then succeeded else failed;
      completed_at = some now;
      result = r.result;
      error = r.error;
    }
    else c

unfoldable pub record_results :
    ℕ → String → List Report → List DeviceCommand → (ℕ × List String) × List DeviceCommand
unfolding record_one is_row_of is_open
record_results now device_id [] l = ((0, []), l)
record_results now device_id (r ∷ rs) l =
    let rest = record_results now device_id rs (map (record_one now device_id r) l) in
    if any (is_row_of device_id r.command_id) l
    then if any (λ c. is_row_of device_id r.command_id c && is_open c.status) l
      then ((suc rest.0.0, rest.0.1), rest.1)
      else rest
    else ((rest.0.0, r.command_id ∷ rest.0.1), rest.1)

-- `order_by(DeviceCommand.created_at.desc())`
unfoldable pub place_latest : DeviceCommand → List DeviceCommand → List DeviceCommand
place_latest c [] = c ∷ []
place_latest c (d ∷ l) = if ltb c.created_at d.created_at then d ∷ place_latest c l else c ∷ d ∷ l

unfoldable pub order_latest : List DeviceCommand → List DeviceCommand
unfolding place_latest
order_latest [] = []
order_latest (c ∷ l) = place_latest c (order_latest l)

unfoldable pub list_for_device : String → Bool → List DeviceCommand → List DeviceCommand
unfolding order_latest is_open
list_for_device device_id include_finished l =
    order_latest
      (keep (λ c. text_eq c.device_id device_id && (include_finished || is_open c.status)) l)

-- `cancel` of the row with this id
unfoldable pub cancel_one : ℕ → String → DeviceCommand → DeviceCommand
unfolding is_open
cancel_one now id c =
    if text_eq c.id id && is_open c.status
    then record c {
      status = expired;
      completed_at = some now;
      error = some "cancelled by operator";
    }
    else c

unfoldable pub cancel : ℕ → String → List DeviceCommand → List DeviceCommand
unfolding cancel_one
cancel now id = map (cancel_one now id)
