-- ===== src/Tests/Recovering.antt =====
-- The theorem on app/services/breach.py, at a device that is engaged twice.
use tak_mdm.Base.{ℕ, ◌+◌, ◌≤◌, String, Option, none, some, List, [], ◌∷◌, ◌≡◌, refl}
use tak_mdm.Breach.{Breached, Site, engage}
use tak_mdm.Breach.Runs.{
  BreachCall, engaging, confirming, after_calls, engagements, first_confirmations, IsConsistent,
  awaited, after_calls_sound,
}

abbrev tablet : Breached
tablet = record {
  id = "tablet";
  serial_number = "R1";
  breach_engaged_at = none;
  breach_engaged_by = none;
  breach_confirmed_at = none;
}

abbrev site : Site
site = record { packages = "com.atakmap.app" ∷ []; profile = some []; invalidated = []; noted = [] }

abbrev calls : List BreachCall
calls =
    engaging 1 none "agent"
    ∷ confirming 2
    ∷ confirming 3
    ∷ engaging 4 (some "ann") "agent"
    ∷ confirming 5
    ∷ []

after_calls_sound_example :
    IsConsistent (after_calls calls site tablet).1
    × (first_confirmations calls site tablet ≤ awaited tablet + engagements calls)
    × ((now : ℕ) (by : Option String) (agent : String)
        → let (then_site, then_device) = after_calls calls site tablet in
          awaited (engage now by agent then_site then_device).1 ≡ 1)
after_calls_sound_example = after_calls_sound calls site tablet (λ n. (refl, refl))
