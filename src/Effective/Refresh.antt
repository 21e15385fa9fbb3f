-- ===== src/Effective/Refresh.antt =====
-- `compute`, `refresh` and `get_effective` of app/services/effective_policy.py.
use tak_mdm.Base.{
  ℕ, ◌+◌, String, Bool, false, Option, none, some, List, [], ◌∷◌, if◌then◌else◌, first_of, map, not,
  ◌&&◌,
}
use tak_mdm.Base.Text.{text_eq}
use tak_mdm.Deployment.{earlier}
use tak_mdm.Effective.{gather_assignments, next_transition}
use tak_mdm.Effective.Invalidation.{EffectivePolicyCache, Fleet, expired}
use tak_mdm.Effective.Rows.{Device, id_of}
use tak_mdm.Json.{Value, Fields, null, bool, str, arr, obj, nil, end, field, lookup_field, py_eq}
use tak_mdm.Merge.{Result, ok, ◌>>=◌}
use tak_mdm.Resolver.{EffectivePolicy}
use tak_mdm.Resolver.Resolve.{Registry, resolve}

-- What is stored for a device. The named parts are compared; `others` are the rest of `as_dict` and
-- the problems of its variables.
pub record Payload : Type 0 where
  pub values : Value
  pub apps : Value
  pub store : Value
  pub files : Value
  pub wallpaper : Value
  pub oem_licensing : Value
  pub compliance_enforcement : Value
  pub tak_enroll : Value
  pub atlas_plugin_host : Value
  pub eula_version : Value
  pub distrusted_cas : Value
  pub others : Fields

unfoldable pub stored : Payload → Fields
stored p = field "values" p.values (
    field "apps" p.apps (
      field "store" p.store (
        field "files" p.files (
          field "wallpaper" p.wallpaper (
            field "oem_licensing" p.oem_licensing (
              field "compliance_enforcement" p.compliance_enforcement (
                field "tak_enroll" p.tak_enroll (
                  field "atlas_plugin_host" p.atlas_plugin_host (
                    field "eula_version" p.eula_version
                      (field "distrusted_cas" p.distrusted_cas p.others))))))))))

-- `knox_license.unset_marker()`
abbrev pub unset_marker : Value
unset_marker =
    obj
      (field "knox" (obj (field "configured" (bool false) (field "fingerprint" (str "") end))) end)

-- `previous.get(key, default)`
abbrev pub get_or_default : String → Value → Fields → Value
get_or_default key default previous = elim (lookup_field key previous) [
  | none ↦ default
  | some v ↦ v
]

-- `previous_state`, against the one of the new payload
unfoldable pub same_state : Fields → Payload → Bool
unfolding py_eq
same_state old p =
    py_eq (get_or_default "values" (obj end) old) p.values
    && (py_eq (get_or_default "apps" (arr nil) old) p.apps
        && (py_eq (get_or_default "store" (arr nil) old) p.store
            && (py_eq
                  (get_or_default "files"
                    (obj (field "available" (arr nil) (field "required" (arr nil) end))) old)
                  p.files
                && (py_eq (get_or_default "wallpaper" (obj end) old) p.wallpaper
                    && (py_eq (get_or_default "oem_licensing" unset_marker old) p.oem_licensing
                        && (py_eq (get_or_default "compliance_enforcement" (obj end) old)
                              p.compliance_enforcement
                            && (py_eq (get_or_default "tak_enroll" (obj end) old) p.tak_enroll
                                && (py_eq (get_or_default "atlas_plugin_host" null old)
                                      p.atlas_plugin_host
                                    && (py_eq (get_or_default "eula_version" null old)
                                          p.eula_version
                                        && py_eq (get_or_default "distrusted_cas" null old)
                                            p.distrusted_cas)))))))))

-- `session.get(EffectivePolicyCache, device.id)`
unfoldable pub cache_of : String → List EffectivePolicyCache → Option EffectivePolicyCache
cache_of id = first_of (λ c. text_eq c.device_id id)

-- The row of its device is replaced, or added.
unfoldable pub keep_cache :
    EffectivePolicyCache → List EffectivePolicyCache → List EffectivePolicyCache
keep_cache cache [] = cache ∷ []
keep_cache cache (c ∷ l) =
    if text_eq c.device_id cache.device_id then cache ∷ l else c ∷ keep_cache cache l

-- what was kept before, or nothing
abbrev pub previous_of : Option EffectivePolicyCache → Fields
previous_of none = end
previous_of (some c) = c.payload

unfoldable pub with_version : String → ℕ → Device → Device
with_version id n d = if text_eq (id_of d) id then record d { state_version = n } else d

unfoldable pub next_version : Fields → Payload → ℕ → ℕ
unfolding same_state
next_version old p n = if same_state old p then n else n + 1

-- `finish id now policy` is the payload that variables, defaults, apps, files and markers make of the
-- resolved policy, and the moment at which the compliance actions change next.
module _ (dumps : Value → String) (reg : Registry)
    (finish : String → ℕ → EffectivePolicy → Payload × Option ℕ) where
  unfoldable pub compute : ℕ → Fleet → Device → Result EffectivePolicy
  unfolding gather_assignments resolve
  compute now f d = resolve dumps reg (id_of d) (gather_assignments now reg f.tables d)

  -- the rest of `refresh`, once the payload is there
  unfoldable pub keep_payload : ℕ → Fleet → Device → Payload × Option ℕ → Fleet
  unfolding cache_of keep_cache with_version next_version stored next_transition earlier
  keep_payload now f d (p, next_at) =
      let n = next_version (previous_of (cache_of (id_of d) f.caches)) p d.state_version in
      record f {
        devices = map (with_version (id_of d) n) f.devices;
        caches =
            keep_cache
              (record {
                device_id = id_of d;
                state_version = n;
                payload = stored p;
                stale = false;
                computed_at = now;
                next_transition_at = earlier (next_transition now f.tables) next_at;
              })
              f.caches;
      }

  -- An exception leaves everything as it was.
  unfoldable pub refresh : ℕ → Fleet → Device → Result (Fields × Fleet)
  unfolding compute keep_payload stored
  refresh now f d = do
    effective ← compute now f d
    ok (
      stored (finish (id_of d) now effective).0,
      keep_payload now f d (finish (id_of d) now effective),
    )

  unfoldable pub get_effective : ℕ → Fleet → Device → Result (Fields × Fleet)
  unfolding cache_of expired
  get_effective now f d = elim (cache_of (id_of d) f.caches) [
    | none ↦ refresh now f d
    | some cache ↦
        if not cache.stale && not (expired now cache)
        then ok (cache.payload, f)
        else refresh now f d
  ]
