-- ===== src/Effective/Lookup.antt =====
-- What the lookups of rows find.
use tak_mdm.Base.{String, ◌≡◌, some, List, In}
use tak_mdm.Base.Keeping.{first_of-In}
use tak_mdm.Base.Text.{text_eq, text_eq_iff}
use tak_mdm.Effective.{policy_by_id, profile_by_id, breach_profile}
use tak_mdm.Effective.Rows.{Policy, PolicyProfile}

pub policy_by_id-In :
    (id : String) (l : List Policy) (p : Policy) → policy_by_id id l ≡ some p → In p l × (p.id ≡ id)
unfolding policy_by_id
policy_by_id-In id l p e =
    let (i, q) = first_of-In (λ q. text_eq q.id id) l p e in (i, (text_eq_iff p.id id).0 q)

pub profile_by_id-In :
    (id : String) (l : List PolicyProfile) (p : PolicyProfile)
    → profile_by_id id l ≡ some p
    → In p l × (p.id ≡ id)
unfolding profile_by_id
profile_by_id-In id l p e =
    let (i, q) = first_of-In (λ q. text_eq q.id id) l p e in (i, (text_eq_iff p.id id).0 q)

pub breach_profile-In :
    (l : List PolicyProfile) (p : PolicyProfile)
    → breach_profile l ≡ some p
    → In p l × (p.name ≡ "Breach mode")
unfolding breach_profile
breach_profile-In l p e =
    let (i, q) = first_of-In (λ q. text_eq q.name "Breach mode") l p e in
    (i, (text_eq_iff p.name "Breach mode").0 q)
