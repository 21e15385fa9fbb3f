-- ===== src/Effective/Rows.antt =====
-- The rows of app/db/models.py that decide which assignments reach a device.
use tak_mdm.Base.{ℕ, String, Bool, Option, List}
use tak_mdm.Base.Int.{ℤ}
use tak_mdm.Breach.{Breached}
use tak_mdm.Deployment.{Deployable}
use tak_mdm.Json.{Fields}

pub record PolicyVersion : Type 0 where
  pub version : ℕ
  pub spec : Fields

-- A policy, with its versions in their order.
pub record Policy : Type 0 where
  pub id : String
  pub name : String
  pub policy_type : String
  pub is_template : Bool
  pub profile_id : Option String
  pub profile_section : Option String
  pub versions : List PolicyVersion
  pub deployment : Deployable

pub record PolicyProfile : Type 0 where
  pub id : String
  pub name : String
  pub is_template : Bool
  pub deployment : Deployable

pub data AssignmentScope : Type 0 where
  device : AssignmentScope
  group : AssignmentScope

-- `scope.value`
unfoldable pub scope_value : AssignmentScope → String
scope_value device = "device"
scope_value group = "group"

pub record Assignment : Type 0 where
  pub id : String
  pub policy_id : String
  pub pinned_version : Option PolicyVersion
  pub scope : AssignmentScope
  pub device_id : Option String
  pub group_id : Option String
  pub rank : ℤ
  pub enabled : Bool

pub record ProfileAssignment : Type 0 where
  pub id : String
  pub profile_id : String
  pub scope : AssignmentScope
  pub device_id : Option String
  pub group_id : Option String
  pub rank : ℤ
  pub enabled : Bool

-- A device with the ids of its groups; `breached` has its id and what breach mode wrote.
pub record Device : Type 0 where
  pub breached : Breached
  pub groups : List String
  pub state_version : ℕ

abbrev pub id_of : Device → String
id_of d = d.breached.id

pub record Tables : Type 0 where
  pub policies : List Policy
  pub profiles : List PolicyProfile
  pub assignments : List Assignment
  pub profile_assignments : List ProfileAssignment
