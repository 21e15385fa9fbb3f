-- ===== src/Effective/Gathered.antt =====
-- What is gathered for a device, told by the rows that bring it.
use Prim.Native.String.{◌++◌ as glue}
use mathlib.Core.List.{flat_map}
use tak_mdm.Base.{
  ℕ, String, true, false, ◌≡◌, refl, Option, none, some, List, if◌then◌else◌, In, keep, inl, inr,
  Bool-cases, Option-cases, ◌&&◌, ◌⊎◌, ◌↔◌, not,
}
use tak_mdm.Base.Flat.{In-flat_map→, In-flat_map←}
use tak_mdm.Base.Int.{ℤ, pos}
use tak_mdm.Base.Membership.{In-keep→, In-keep←, In-append→, In-append←}
use tak_mdm.Base.Text.{text_eq_refl}
use tak_mdm.Breach.{is_engaged}
use tak_mdm.Deployment.{is_archived, is_live}
use tak_mdm.Effective.{
  is_id, reaches, policy_by_id, profile_by_id, breach_profile, sections, latest_version,
  effective_version, snapshot, is_registered, input_of, applies, applied_input, assignment_input,
  section_input, expanded, profile_input, breach_assignments, gather_assignments,
  gather_profile_assignments,
}
use tak_mdm.Effective.Affected.{is_id-some}
use tak_mdm.Effective.InForce.{Applies, Stands, applies→, applies←, stands→, stands←}
use tak_mdm.Effective.Rows.{
  Policy, PolicyVersion, PolicyProfile, Assignment, ProfileAssignment, Device, Tables, scope_value,
}
use tak_mdm.Resolver.{AssignmentInput}
use tak_mdm.Resolver.Resolve.{Registry}

-- the input of a policy in a version
abbrev pub input : String → String → ℤ → Policy → PolicyVersion → AssignmentInput
input id scope rank p v = record {
  assignment_id = id;
  scope = scope;
  rank = rank;
  policy = snapshot p v;
}

-- The version that is given, of a type that is registered, makes the input.
abbrev pub Makes :
    Registry → String → String → ℤ → Policy → Option PolicyVersion → AssignmentInput → Type 0
Makes reg id scope rank p o x =
    (v : PolicyVersion) × (o ≡ some v)
    × (is_registered reg p.policy_type ≡ true)
    × (x ≡ input id scope rank p v)

input_of→ :
    (reg : Registry) (id scope : String) (rank : ℤ) (p : Policy) (o : Option PolicyVersion)
    (x : AssignmentInput)
    → In x (input_of reg id scope rank p o)
    → Makes reg id scope rank p o x
unfolding input_of
input_of→ reg id scope rank p none x i = absurd i
input_of→ reg id scope rank p (some v) x i = elim (Bool-cases (is_registered reg p.policy_type)) [
  | inl e ↦ elim (rw e at i) [ inl q ↦ (v, refl, e, q) | inr j ↦ absurd j ]
  | inr e ↦ absurd (rw e at i)
]

input_of← :
    (reg : Registry) (id scope : String) (rank : ℤ) (p : Policy) (o : Option PolicyVersion)
    (x : AssignmentInput)
    → Makes reg id scope rank p o x
    → In x (input_of reg id scope rank p o)
unfolding input_of
input_of← reg id scope rank p o x (v, e, r, q) = rw (e, r) (inl q)

-- A section that brings the input, under what stands before its id.
abbrev pub FromSection : Registry → Tables → String → String → ℤ → String → AssignmentInput → Type 0
FromSection reg t prefix scope rank profile_id x =
    (p : Policy) × In p t.policies
    × (p.profile_id ≡ some profile_id)
    × (is_archived p.deployment ≡ false)
    × Makes reg (glue prefix p.id) scope rank p (latest_version p.versions) x

sections→ :
    (reg : Registry) (t : Tables) (prefix scope : String) (rank : ℤ) (profile_id : String)
    (x : AssignmentInput)
    → In x (flat_map (section_input reg prefix scope rank) (sections profile_id t.policies))
    → FromSection reg t prefix scope rank profile_id x
unfolding sections section_input
sections→ reg t prefix scope rank profile_id x i =
    let (p, j, k) =
      In-flat_map→ (section_input reg prefix scope rank)
        (keep (λ p. is_id profile_id p.profile_id) t.policies) x i in
    let (m, own) = In-keep→ (λ p. is_id profile_id p.profile_id) t.policies p j in
    elim (Bool-cases (is_archived p.deployment)) [
      | inl e ↦ absurd (rw (section_input, e) at k)
      | inr e ↦ (
        p,
        m,
        is_id-some profile_id p.profile_id own,
        e,
        input_of→ reg (glue prefix p.id) scope rank p (latest_version p.versions) x
            (rw (section_input, e) at k),
      )
    ]

sections← :
    (reg : Registry) (t : Tables) (prefix scope : String) (rank : ℤ) (profile_id : String)
    (x : AssignmentInput)
    → FromSection reg t prefix scope rank profile_id x
    → In x (flat_map (section_input reg prefix scope rank) (sections profile_id t.policies))
unfolding sections section_input is_id
sections← reg t prefix scope rank profile_id x (p, m, own, e, made) =
    In-flat_map← (section_input reg prefix scope rank)
      (keep (λ p. is_id profile_id p.profile_id) t.policies) p x
      (In-keep← (λ p. is_id profile_id p.profile_id) t.policies p m
        (rw own (text_eq_refl profile_id)))
      (rw (section_input, e)
        (input_of← reg (glue prefix p.id) scope rank p (latest_version p.versions) x made))

-- An enabled assignment that reaches the device, of a policy in force that is no breach policy.
abbrev pub FromAssignment : ℕ → Registry → Tables → Device → AssignmentInput → Type 0
FromAssignment now reg t d x =
    (a : Assignment) × (p : Policy) × In a t.assignments
    × (a.enabled && reaches d a.device_id a.group_id ≡ true)
    × (policy_by_id a.policy_id t.policies ≡ some p)
    × Applies now p
    × Makes reg a.id (scope_value a.scope) a.rank p (effective_version a p) x

-- An enabled assignment that reaches the device, of a profile in force, and a section of the profile.
abbrev pub FromProfile : ℕ → Registry → Tables → Device → AssignmentInput → Type 0
FromProfile now reg t d x =
    (a : ProfileAssignment) × (q : PolicyProfile) × In a t.profile_assignments
    × (a.enabled && reaches d a.device_id a.group_id ≡ true)
    × (profile_by_id a.profile_id t.profiles ≡ some q)
    × Stands now q
    × FromSection reg t (glue "profile:" (glue a.id ":")) (scope_value a.scope) a.rank q.id x

-- A section of the reserved profile.
abbrev pub FromBreach : Registry → Tables → AssignmentInput → Type 0
FromBreach reg t x =
    (q : PolicyProfile) × (breach_profile t.profiles ≡ some q)
    × FromSection reg t "breach:" "device" (pos 0) q.id x

module _ (now : ℕ) (reg : Registry) (t : Tables) (d : Device) (x : AssignmentInput) where
  abbrev rows : List Assignment
  rows = keep (λ a. a.enabled && reaches d a.device_id a.group_id) t.assignments

  abbrev profile_rows : List ProfileAssignment
  profile_rows = keep (λ a. a.enabled && reaches d a.device_id a.group_id) t.profile_assignments

  assigned→ :
      In x (flat_map (assignment_input now reg t.policies) rows) → FromAssignment now reg t d x
  unfolding assignment_input applied_input
  assigned→ i =
      let (a, j, k) = In-flat_map→ (assignment_input now reg t.policies) rows x i in
      let (m, h) =
        In-keep→ (λ a. a.enabled && reaches d a.device_id a.group_id) t.assignments a j in
      elim (Option-cases (policy_by_id a.policy_id t.policies)) [
        | inl e ↦ absurd (rw (assignment_input, e) at k)
        | inr (p, e) ↦ elim (Bool-cases (applies now p)) [
          | inl g ↦ (
            a,
            p,
            m,
            h,
            e,
            applies→ now p g,
            input_of→ reg a.id (scope_value a.scope) a.rank p (effective_version a p) x
                (rw (assignment_input, e, applied_input, g) at k),
          )
          | inr g ↦ absurd (rw (assignment_input, e, applied_input, g) at k)
        ]
      ]

  assigned← :
      FromAssignment now reg t d x → In x (flat_map (assignment_input now reg t.policies) rows)
  unfolding assignment_input applied_input
  assigned← (a, p, m, h, e, w, made) =
      let g = applies← now p w in
      In-flat_map← (assignment_input now reg t.policies) rows a x
        (In-keep← (λ a. a.enabled && reaches d a.device_id a.group_id) t.assignments a m h)
        (rw (assignment_input, e, applied_input, g)
          (input_of← reg a.id (scope_value a.scope) a.rank p (effective_version a p) x made))

  profiles→ :
      In x (flat_map (profile_input now reg t.profiles t.policies) profile_rows)
      → FromProfile now reg t d x
  unfolding profile_input expanded
  profiles→ i =
      let (a, j, k) = In-flat_map→ (profile_input now reg t.profiles t.policies) profile_rows x i in
      let (m, h) =
        In-keep→ (λ a. a.enabled && reaches d a.device_id a.group_id) t.profile_assignments a j in
      elim (Option-cases (profile_by_id a.profile_id t.profiles)) [
        | inl e ↦ absurd (rw (profile_input, e) at k)
        | inr (q, e) ↦
            elim (Bool-cases (not (is_archived q.deployment) && is_live now q.deployment)) [
              | inl g ↦ (
                a,
                q,
                m,
                h,
                e,
                stands→ now q g,
                sections→ reg t (glue "profile:" (glue a.id ":")) (scope_value a.scope) a.rank q.id
                    x (rw (profile_input, e, expanded, g) at k),
              )
              | inr g ↦ absurd (rw (profile_input, e, expanded, g) at k)
            ]
      ]

  profiles← :
      FromProfile now reg t d x
      → In x (flat_map (profile_input now reg t.profiles t.policies) profile_rows)
  unfolding profile_input expanded
  profiles← (a, q, m, h, e, w, made) =
      let g = stands← now q w in
      In-flat_map← (profile_input now reg t.profiles t.policies) profile_rows a x
        (In-keep← (λ a. a.enabled && reaches d a.device_id a.group_id) t.profile_assignments a m h)
        (rw (profile_input, e, expanded, g)
          (sections← reg t (glue "profile:" (glue a.id ":")) (scope_value a.scope) a.rank q.id x
            made))

  breached→ : In x (breach_assignments reg t) → FromBreach reg t x
  unfolding breach_assignments
  breached→ i = elim (Option-cases (breach_profile t.profiles)) [
    | inl e ↦ absurd (rw (breach_assignments, e) at i)
    | inr (q, e) ↦
        (q, e, sections→ reg t "breach:" "device" (pos 0) q.id x (rw (breach_assignments, e) at i))
  ]

  breached← : FromBreach reg t x → In x (breach_assignments reg t)
  unfolding breach_assignments
  breached← (q, e, made) =
      rw (breach_assignments, e) (sections← reg t "breach:" "device" (pos 0) q.id x made)

  -- What should be gathered for the device.
  abbrev pub Gathered : Type 0
  Gathered =
      if is_engaged d.breached
      then FromBreach reg t x
      else FromAssignment now reg t d x
      ⊎ FromProfile now reg t d x

  -- An input is gathered for a device exactly if, in breach, a section of the reserved profile makes
  -- it, and otherwise an enabled assignment that reaches the device does, of a policy in force that is
  -- no template and no breach policy, in its effective version, or a section of a profile in force; of
  -- archived rows, of those without a version and of unknown types nothing is.
  pub gather_assignments-Gathered : In x (gather_assignments now reg t d) ↔ Gathered
  unfolding gather_assignments gather_profile_assignments
  gather_assignments-Gathered = elim (Bool-cases (is_engaged d.breached)) [
    | inl e ↦ rw e (breached→, breached←)
    | inr e ↦ rw e (
      λ i.
          elim (In-append→ (flat_map (assignment_input now reg t.policies) rows)
            (flat_map (profile_input now reg t.profiles t.policies) profile_rows) x i) [
              | inl j ↦ inl (assigned→ j)
              | inr j ↦ inr (profiles→ j)
            ],
      λ h.
          In-append← (flat_map (assignment_input now reg t.policies) rows)
            (flat_map (profile_input now reg t.profiles t.policies) profile_rows) x
            (elim h [ inl j ↦ inl (assigned← j) | inr j ↦ inr (profiles← j) ]),
    )
  ]
