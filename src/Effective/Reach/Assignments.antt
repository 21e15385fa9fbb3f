-- ===== src/Effective/Reach/Assignments.antt =====
-- A new, a changed or a deleted assignment leaves what is gathered for every device that it does not
-- target as it was.
use mathlib.Core.List.{flat_map, append-nil}
use tak_mdm.Base.{
  ℕ, Bool, true, false, ◌≡◌, refl, ap, ◌∙◌, List, [], ◌∷◌, ◌++◌, if◌then◌else◌, In, keep, map, inl,
  inr, Bool-cases, ◌&&◌, not,
}
use tak_mdm.Base.Flat.{keep-changed, keep-dropped}
use tak_mdm.Base.Keeping.{keep-append}
use tak_mdm.Base.Text.{text_eq, text_eq_iff}
use tak_mdm.Breach.{is_engaged}
use tak_mdm.Base.Rows.{OneRow}
use tak_mdm.Effective.{
  breach_assignments, reaches, assignment_input, gather_assignments, gather_profile_assignments,
}
use tak_mdm.Effective.Affected.{Targets, reached_targeted}
use tak_mdm.Effective.Invalidation.{devices_targeted_by}
use tak_mdm.Effective.Rows.{Assignment, Device, id_of, Tables}
use tak_mdm.Resolver.Resolve.{Registry}

-- An assignment that does not target the device is not one of the rows of its query.
pub unreached :
    (devices : List Device) (d : Device) (a : Assignment)
    → In d devices
    → Targets a.scope a.device_id a.group_id
    → (In (id_of d) (devices_targeted_by devices a) → ⊥)
    → reaches d a.device_id a.group_id ≡ false
unfolding devices_targeted_by
unreached devices d a i e out = elim (Bool-cases (reaches d a.device_id a.group_id)) [
  | inl h ↦ absurd (out (reached_targeted devices d a.scope a.device_id a.group_id i e h))
  | inr h ↦ h
]

-- The same rows reach the device.
pub same_rows :
    (t : Tables) (l : List Assignment) (d : Device)
    → keep (λ a. a.enabled && reaches d a.device_id a.group_id) l
      ≡ keep (λ a. a.enabled && reaches d a.device_id a.group_id) t.assignments
    → (now : ℕ) (reg : Registry)
    → gather_assignments now reg (record t { assignments = l }) d ≡ gather_assignments now reg t d
unfolding gather_assignments gather_profile_assignments
same_rows t l d e now reg =
    ap
      (λ rows.
        if is_engaged d.breached
        then breach_assignments reg t
        else flat_map (assignment_input now reg t.policies) rows
          ++ gather_profile_assignments now reg t d)
      e

off : (x : Bool) → x && false ≡ false
off true = refl
off false = refl

pub added :
    (l : List Assignment) (d : Device) (a : Assignment)
    → reaches d a.device_id a.group_id ≡ false
    → keep (λ b. b.enabled && reaches d b.device_id b.group_id) (l ++ a ∷ [])
      ≡ keep (λ b. b.enabled && reaches d b.device_id b.group_id) l
added l d a h =
    keep-append (λ b. b.enabled && reaches d b.device_id b.group_id) l (a ∷ [])
    ∙ rw (h, off a.enabled) (append-nil _)

module _ (l : List Assignment) (d : Device) (a : Assignment) (i : In a l)
    (one : OneRow (λ (b : Assignment). b.id) l)
    (out : reaches d a.device_id a.group_id ≡ false) where
  here_out :
      (b : Assignment)
      → In b l
      → text_eq b.id a.id ≡ true
      → b.enabled && reaches d b.device_id b.group_id ≡ false
  here_out b j e = rw (one b a j i ((text_eq_iff b.id a.id).0 e), out) (off a.enabled)

  pub changed :
      (change : Assignment → Assignment)
      → ((b : Assignment) → (change b).device_id ≡ b.device_id)
      → ((b : Assignment) → (change b).group_id ≡ b.group_id)
      → keep
          (λ b. b.enabled && reaches d b.device_id b.group_id)
          (map (λ b. if text_eq b.id a.id then change b else b) l)
        ≡ keep (λ b. b.enabled && reaches d b.device_id b.group_id) l
  changed change same_device same_group =
      keep-changed (λ b. b.enabled && reaches d b.device_id b.group_id) (λ b. text_eq b.id a.id)
        change l
        (λ b j e. (
          here_out b j e,
          rw (same_device b, same_group b, one b a j i ((text_eq_iff b.id a.id).0 e), out)
              (off (change a).enabled),
        ))

  pub dropped :
      keep
        (λ b. b.enabled && reaches d b.device_id b.group_id)
        (keep (λ b. not (text_eq b.id a.id)) l)
      ≡ keep (λ b. b.enabled && reaches d b.device_id b.group_id) l
  dropped =
      keep-dropped (λ b. b.enabled && reaches d b.device_id b.group_id) (λ b. text_eq b.id a.id) l
        here_out
