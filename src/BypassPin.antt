-- ===== src/BypassPin.antt =====
-- app/services/bypass_pin.py: the PIN past the permission screen, and the attempts of one enrollment
-- token or device. `strip` and `compare_digest` are parameters, the latter `none` where it raises; fresh
-- PINs are arguments.
pub mod Attempts
use tak_mdm.Base.{ℕ, suc, ◌-◌, String, Bool, true, false, Option, none, some, if◌then◌else◌, leb}
use tak_mdm.Base.Text.{text_eq}

pub record Texts : Type 0 where
  pub strip : String → String
  pub compare_digest : String → String → Option Bool

-- the setting, if it is stored, and who stored it
pub record PinSetting : Type 0 where
  pub pin : String
  pub updated_by : String

pub record Gate : Type 0 where
  pub stored : Option PinSetting
  pub bypass_attempts : ℕ

abbrev pub max_attempts : ℕ
max_attempts = 10

-- The PIN, and the setting with it: an empty or missing one is generated.
unfoldable pub get_or_create : String → Option PinSetting → String × Option PinSetting
get_or_create fresh none = (fresh, some (record { pin = fresh; updated_by = "system" }))
get_or_create fresh (some s) =
    if text_eq s.pin ""
    then (fresh, some (record { pin = fresh; updated_by = "system" }))
    else (s.pin, some s)

unfoldable pub regenerate : String → String → Gate → Gate
regenerate fresh by g = record g { stored = some (record { pin = fresh; updated_by = by }) }

unfoldable pub attempts_remaining : Gate → ℕ
attempts_remaining g = max_attempts - g.bypass_attempts

pub data Answer : Type 0 where
  accepted : Answer
  rejected : Answer
  raised : Answer

-- what follows the comparison
unfoldable pub answer_of : Gate → Option Bool → Answer × Gate
answer_of counted none = (raised, counted)
answer_of counted (some true) = (accepted, record counted { bypass_attempts = 0 })
answer_of counted (some false) = (rejected, counted)

module _ (lib : Texts) where
  -- `verify`; the candidate is `candidate or ""`
  unfoldable pub verify : String → String → Gate → Answer × Gate
  unfolding get_or_create answer_of
  verify fresh candidate g =
      if leb max_attempts g.bypass_attempts
      then (rejected, g)
      else let known = get_or_create fresh g.stored in
        let counted : Gate = record { stored = known.1; bypass_attempts = suc g.bypass_attempts } in
        answer_of counted (lib.compare_digest known.0 (lib.strip candidate))
