-- ===== src/Effective/Consistent.antt =====
-- The writes keep the keys and the constraints of the tables.
use tak_mdm.Base.{String, ◌≡◌, List, if◌then◌else◌, In}
use tak_mdm.Base.Text.{text_eq}
use tak_mdm.Base.Rows.{OneRow, OneRow-map, changed_id}
use tak_mdm.Effective.Affected.{IsConsistent, Targets}
use tak_mdm.Effective.Rows.{Policy, PolicyProfile, Assignment, Tables}
use tak_mdm.Effective.Writes.{put_policy, put_profile}

pub put_policy-IsConsistent :
    (id : String) (change : Policy → Policy) (t : Tables)
    → ((p : Policy) → (change p).id ≡ p.id)
    → IsConsistent t
    → IsConsistent (put_policy id change t)
unfolding put_policy
put_policy-IsConsistent id change t same ok = record {
  one_policy =
      OneRow-map (λ p. p.id) (λ p. if text_eq p.id id then change p else p) t.policies
        (changed_id (λ p. p.id) (λ p. text_eq p.id id) change same) ok.one_policy;
  one_profile = ok.one_profile;
  one_assignment = ok.one_assignment;
  assigned = ok.assigned;
  profile_assigned = ok.profile_assigned;
}

pub put_profile-IsConsistent :
    (id : String) (change : PolicyProfile → PolicyProfile) (t : Tables)
    → ((p : PolicyProfile) → (change p).id ≡ p.id)
    → IsConsistent t
    → IsConsistent (put_profile id change t)
unfolding put_profile
put_profile-IsConsistent id change t same ok = record {
  one_policy = ok.one_policy;
  one_profile =
      OneRow-map (λ p. p.id) (λ p. if text_eq p.id id then change p else p) t.profiles
        (changed_id (λ p. p.id) (λ p. text_eq p.id id) change same) ok.one_profile;
  one_assignment = ok.one_assignment;
  assigned = ok.assigned;
  profile_assigned = ok.profile_assigned;
}

-- The assignments of the table are replaced by ones that obey its constraints.
pub with_assignments-IsConsistent :
    (l : List Assignment) (t : Tables)
    → OneRow (λ (a : Assignment). a.id) l
    → ((a : Assignment) → In a l → Targets a.scope a.device_id a.group_id)
    → IsConsistent t
    → IsConsistent (record t { assignments = l })
with_assignments-IsConsistent l t one assigned ok = record {
  one_policy = ok.one_policy;
  one_profile = ok.one_profile;
  one_assignment = one;
  assigned = assigned;
  profile_assigned = ok.profile_assigned;
}
