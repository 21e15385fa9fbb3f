-- ===== src/Effective/Sound/Calls.antt =====
-- Each call but a read is a sound write.
use tak_mdm.Base.{
  ℕ, String, Bool, true, false, ◌≡◌, refl, sym, subst, Option, none, some, List, [], ◌∷◌, ◌++◌,
  if◌then◌else◌, In, keep, map, any, inl, inr, Bool-cases, Option-cases, not, ◌⊎◌,
}
use tak_mdm.Base.Int.{ℤ}
use tak_mdm.Base.Membership.{In-map→, In-keep→, In-append→}
use tak_mdm.Base.Text.{text_eq}
use tak_mdm.Deployment.{Deployable, is_archived}
use tak_mdm.Deployment.Sweep.{Item, policy, profile, activate, activate_all, write, begin, columns}
use tak_mdm.Base.Rows.{OneRow-map, OneRow-keep, OneRow-add, changed_id}
use tak_mdm.Effective.{policy_by_id}
use tak_mdm.Effective.Affected.{IsConsistent, Targets}
use tak_mdm.Effective.Calls.{or_same}
use tak_mdm.Effective.Consistent.{with_assignments-IsConsistent}
use tak_mdm.Effective.Invalidation.{Fleet, invalidate_for_assignment, devices_targeted_by}
use tak_mdm.Effective.Reach.Assignments.{unreached, same_rows, added, changed, dropped}
use tak_mdm.Effective.Rows.{
  Assignment, AssignmentScope, device, group, PolicyProfile, PolicyVersion,
}
use tak_mdm.Effective.Sound.{
  IsSound, IsSound-refl, IsSound-trans, put_policy-IsSound, put_profile-IsSound,
  invalidated-IsSound,
}
use tak_mdm.Effective.Writes.{
  archive_policy, restore_policy, publish_version, restore_profile, create_assignment,
  update_assignment, delete_assignment, deploy_policy, deploy_profile, set_archived, add_version,
  put_assignment, new_assignment, updated, is_empty, with_tables,
}
use tak_mdm.Json.{Fields}

pub publish-IsSound :
    (id : String) (spec : Fields) (f : Fleet)
    → IsConsistent f.tables
    → IsSound f (or_same f (publish_version id spec f))
unfolding publish_version add_version
publish-IsSound id spec f ok = elim (Option-cases (policy_by_id id f.tables.policies)) [
  | inl e ↦ rw (publish_version, e) (IsSound-refl f ok)
  | inr (p, e) ↦
      rw (publish_version, e)
        (put_policy-IsSound f id (add_version spec) (λ p. refl) (λ p. refl) ok)
]

pub archive-IsSound :
    (now : ℕ) (id : String) (f : Fleet)
    → IsConsistent f.tables
    → IsSound f (or_same f (archive_policy now id f))
unfolding archive_policy
archive-IsSound now id f ok = elim (Option-cases (policy_by_id id f.tables.policies)) [
  | inl e ↦ rw (archive_policy, e) (IsSound-refl f ok)
  | inr (p, e) ↦ elim (Bool-cases (is_archived p.deployment)) [
    | inl a ↦ rw (archive_policy, e, a) (IsSound-refl f ok)
    | inr a ↦
        rw (archive_policy, e, a)
          (put_policy-IsSound f id (deploy_policy (set_archived (some now))) (λ p. refl) (λ p. refl)
            ok)
  ]
]

pub restore-IsSound :
    (id : String) (f : Fleet) → IsConsistent f.tables → IsSound f (or_same f (restore_policy id f))
unfolding restore_policy
restore-IsSound id f ok = elim (Option-cases (policy_by_id id f.tables.policies)) [
  | inl e ↦ rw (restore_policy, e) (IsSound-refl f ok)
  | inr (p, e) ↦ elim (Bool-cases (is_archived p.deployment)) [
    | inl a ↦
        rw (restore_policy, e, a)
          (put_policy-IsSound f id (deploy_policy (set_archived none)) (λ p. refl) (λ p. refl) ok)
    | inr a ↦ rw (restore_policy, e, a) (IsSound-refl f ok)
  ]
]

pub restore_profile-IsSound :
    (p : PolicyProfile) (f : Fleet) → IsConsistent f.tables → IsSound f (restore_profile p f)
unfolding restore_profile
restore_profile-IsSound p f ok = elim (Bool-cases (is_archived p.deployment)) [
  | inl a ↦
      rw (restore_profile, a)
        (put_profile-IsSound f p.id (deploy_profile (set_archived none)) (λ p. refl) (λ p. refl) ok)
  | inr a ↦ rw (restore_profile, a) (IsSound-refl f ok)
]

pub write-IsSound :
    (item : Item) (how : Deployable → Deployable) (f : Fleet)
    → IsConsistent f.tables
    → IsSound f (write item how f)
unfolding write
write-IsSound (policy p) how f ok =
    put_policy-IsSound f p.id (deploy_policy how) (λ p. refl) (λ p. refl) ok
write-IsSound (profile p) how f ok =
    put_profile-IsSound f p.id (deploy_profile how) (λ p. refl) (λ p. refl) ok

pub activate-IsSound :
    (now : ℕ) (item : Item) (f : Fleet) → IsConsistent f.tables → IsSound f (activate now item f).1
unfolding activate
activate-IsSound now item f ok = elim (Bool-cases (columns item).pending_deployment) [
  | inl e ↦ rw (activate, e) (write-IsSound item (begin now) f ok)
  | inr e ↦ rw (activate, e) (IsSound-refl f ok)
]

pub activate_all-IsSound :
    (now : ℕ) (items : List Item) (f : Fleet)
    → IsConsistent f.tables
    → IsSound f (activate_all now items f).1
unfolding activate_all
activate_all-IsSound now [] f ok = IsSound-refl f ok
activate_all-IsSound now (item ∷ items) f ok =
    let first = activate-IsSound now item f ok in
    IsSound-trans f (activate now item f).1 (activate_all now items (activate now item f).1).1 first
      (activate_all-IsSound now items (activate now item f).1 first.consistent)

-- A row that obeys the constraint, under an id that is free.
add-IsSound :
    (a : Assignment) (f : Fleet)
    → Targets a.scope a.device_id a.group_id
    → any (λ (b : Assignment). text_eq b.id a.id) f.tables.assignments ≡ false
    → IsConsistent f.tables
    → IsSound f (
        invalidate_for_assignment a
          (with_tables f (record f.tables { assignments = f.tables.assignments ++ a ∷ [] })))
unfolding invalidate_for_assignment
add-IsSound a f target free ok =
    invalidated-IsSound (devices_targeted_by f.devices a) f
      (record f.tables { assignments = f.tables.assignments ++ a ∷ [] })
      (with_assignments-IsConsistent (f.tables.assignments ++ a ∷ []) f.tables
        (OneRow-add (λ (b : Assignment). b.id) f.tables.assignments a free ok.one_assignment)
        (λ b i. obeys b (In-append→ f.tables.assignments (a ∷ []) b i)) ok)
      (λ d i out u reg.
        same_rows f.tables (f.tables.assignments ++ a ∷ []) d
          (added f.tables.assignments d a (unreached f.devices d a i target out)) u reg)
  where
    obeys :
        (b : Assignment)
        → In b f.tables.assignments ⊎ In b (a ∷ [])
        → Targets b.scope b.device_id b.group_id
    obeys b (inl i) = ok.assigned b i
    obeys b (inr (inl e)) = subst (λ c. Targets c.scope c.device_id c.group_id) (sym e) target
    obeys b (inr (inr i)) = absurd i

pub create-IsSound :
    (id policy_id : String) (scope : AssignmentScope) (target_id : String) (rank : ℤ)
    (enabled : Bool) (pinned : Option PolicyVersion) (f : Fleet)
    → any (λ (b : Assignment). text_eq b.id id) f.tables.assignments ≡ false
    → IsConsistent f.tables
    → IsSound f (create_assignment id policy_id scope target_id rank enabled pinned f)
unfolding create_assignment
create-IsSound id policy_id device target_id rank enabled pinned f free ok =
    add-IsSound (new_assignment id policy_id device target_id rank enabled pinned) f refl free ok
create-IsSound id policy_id group target_id rank enabled pinned f free ok =
    add-IsSound (new_assignment id policy_id group target_id rank enabled pinned) f refl free ok

-- Only the rank and the flag are written.
columns_of_updated :
    (rank : Option ℤ) (enabled : Option Bool) (a : Assignment)
    → ((updated rank enabled a).id ≡ a.id)
      × ((updated rank enabled a).scope ≡ a.scope)
      × ((updated rank enabled a).device_id ≡ a.device_id)
      × ((updated rank enabled a).group_id ≡ a.group_id)
columns_of_updated none none a = (refl, refl, refl, refl)
columns_of_updated none (some e) a = (refl, refl, refl, refl)
columns_of_updated (some r) none a = (refl, refl, refl, refl)
columns_of_updated (some r) (some e) a = (refl, refl, refl, refl)

module _ (a : Assignment) (f : Fleet) (i : In a f.tables.assignments)
    (ok : IsConsistent f.tables) where
  put-IsSound :
      (how : Assignment → Assignment)
      → ((b : Assignment) → (how b).id ≡ b.id)
      → ((b : Assignment) → (how b).scope ≡ b.scope)
      → ((b : Assignment) → (how b).device_id ≡ b.device_id)
      → ((b : Assignment) → (how b).group_id ≡ b.group_id)
      → IsSound f (invalidate_for_assignment a (with_tables f (put_assignment a.id how f.tables)))
  unfolding invalidate_for_assignment put_assignment
  put-IsSound how same_id same_scope same_device same_group =
      invalidated-IsSound (devices_targeted_by f.devices a) f (put_assignment a.id how f.tables)
        (with_assignments-IsConsistent (map row f.tables.assignments) f.tables
          (OneRow-map (λ (b : Assignment). b.id) row f.tables.assignments
            (changed_id (λ (b : Assignment). b.id) (λ b. text_eq b.id a.id) how same_id)
            ok.one_assignment)
          (λ b j.
            let (c, k, q) = In-map→ row f.tables.assignments b j in
            subst (λ x. Targets x.scope x.device_id x.group_id) (sym q)
              (obeys c (text_eq c.id a.id) (ok.assigned c k)))
          ok)
        (λ d j out u reg.
          same_rows f.tables (map row f.tables.assignments) d
            (changed f.tables.assignments d a i ok.one_assignment
              (unreached f.devices d a j (ok.assigned a i) out) how same_device same_group)
            u reg)
    where
      row : Assignment → Assignment
      row b = if text_eq b.id a.id then how b else b

      obeys :
          (c : Assignment) (t : Bool)
          → Targets c.scope c.device_id c.group_id
          → Targets
              (if t then how c else c).scope
              (if t then how c else c).device_id
              (if t then how c else c).group_id
      obeys c true h = rw (same_scope c, same_device c, same_group c) h
      obeys c false h = h

  pub update-IsSound :
      (rank : Option ℤ) (enabled : Option Bool) → IsSound f (update_assignment a rank enabled f)
  unfolding update_assignment
  update-IsSound rank enabled = elim (Bool-cases (is_empty rank enabled)) [
    | inl e ↦ rw (update_assignment, e) (IsSound-refl f ok)
    | inr e ↦
        rw (update_assignment, e)
          (put-IsSound (updated rank enabled) (λ b. (columns_of_updated rank enabled b).0)
            (λ b. (columns_of_updated rank enabled b).1)
            (λ b. (columns_of_updated rank enabled b).2)
            (λ b. (columns_of_updated rank enabled b).3))
  ]

  pub delete-IsSound : IsSound f (delete_assignment a f)
  unfolding delete_assignment
  delete-IsSound =
      invalidated-IsSound (devices_targeted_by f.devices a) f
        (record f.tables { assignments = keep (λ b. not (text_eq b.id a.id)) f.tables.assignments })
        (with_assignments-IsConsistent (keep (λ b. not (text_eq b.id a.id)) f.tables.assignments)
          f.tables
          (OneRow-keep (λ (b : Assignment). b.id) (λ b. not (text_eq b.id a.id))
            f.tables.assignments ok.one_assignment)
          (λ b j.
            ok.assigned b (In-keep→ (λ c. not (text_eq c.id a.id)) f.tables.assignments b j).0)
          ok)
        (λ d j out u reg.
          same_rows f.tables (keep (λ b. not (text_eq b.id a.id)) f.tables.assignments) d
            (dropped f.tables.assignments d a i ok.one_assignment
              (unreached f.devices d a j (ok.assigned a i) out))
            u reg)
