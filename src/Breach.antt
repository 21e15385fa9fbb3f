-- ===== src/Breach.antt =====
-- app/services/breach.py: a device in the wrong hands. The reserved profile is what it blocks; the other
-- sections of it and its versions are left to the profiles.
pub mod Runs
use Prim.Native.String.{◌++◌ as glue}
use tak_mdm.Base.{
  ℕ, String, Bool, true, false, Option, none, some, List, [], ◌∷◌, ◌++◌, keep, any, not,
  if◌then◌else◌, ◌||◌,
}
use tak_mdm.Base.Sorting.{sort_by}
use tak_mdm.Base.Text.{text_eq, text_lt}

-- the columns of a device that this module writes
pub record Breached : Type 0 where
  pub id : String
  pub serial_number : String
  pub breach_engaged_at : Option ℕ
  pub breach_engaged_by : Option String
  pub breach_confirmed_at : Option ℕ

-- the packages of the library, what the reserved profile blocks if there is such a profile, the
-- devices whose policy was invalidated, and the details of the events that were noted
pub record Site : Type 0 where
  pub packages : List String
  pub profile : Option (List String)
  pub invalidated : List String
  pub noted : List String

-- `is not None`
unfoldable pub is_known : Option ℕ → Bool
is_known none = false
is_known (some t) = true

unfoldable pub is_engaged : Breached → Bool
unfolding is_known
is_engaged device = is_known device.breach_engaged_at

-- `blocklist`, whose survivors are the agent, the launcher and the filter
unfoldable pub blocklist : String → List String → List String
unfolding sort_by text_lt
blocklist agent packages =
    keep
      (λ name. not (
        any (text_eq name)
          (agent ∷ "com.taksolutions.atlaslauncher" ∷ "com.taksolutions.atlasfilter" ∷ [])))
      (sort_by text_lt packages)

-- `regenerate`: what is written, and the site with it.
unfoldable pub freeze : String → Site → List String × Site
unfolding blocklist
freeze agent site = elim site.profile [
  | none ↦ ([], site)
  | some old ↦ (
    blocklist agent site.packages,
    record site { profile = some (blocklist agent site.packages) },
  )
]

-- `by or 'an operator'`
unfoldable pub someone : Option String → String
someone none = "an operator"
someone (some s) = if text_eq s "" then "an operator" else s

unfoldable pub engage : ℕ → Option String → String → Site → Breached → Site × Breached
unfolding freeze someone
engage now by agent site device =
    let frozen = (freeze agent site).1 in
    (
      record frozen {
        invalidated = frozen.invalidated ++ device.id ∷ [];
        noted = frozen.noted ++ glue device.serial_number (glue " — engaged by " (someone by)) ∷ [];
      },
      record device {
        breach_engaged_at = some now;
        breach_engaged_by = by;
        breach_confirmed_at = none;
      },
    )

unfoldable pub clear : Site → Breached → Site × Breached
clear site device = (
  record site { invalidated = site.invalidated ++ device.id ∷ [] },
  record device { breach_engaged_at = none; breach_engaged_by = none; breach_confirmed_at = none },
)

unfoldable pub confirm : ℕ → Breached → Bool × Breached
unfolding is_engaged is_known
confirm now device =
    if not (is_engaged device) || is_known device.breach_confirmed_at
    then (false, device)
    else (true, record device { breach_confirmed_at = some now })
