-- ===== src/Compliance/Wipe.antt =====
-- The compliance wipe in the queue of commands.
use tak_mdm.Base.{
  ℕ, ◌≤◌, String, Bool, true, false, ◌≡◌, refl, sym, ap, ◌∙◌, subst, none, some, List, [], ◌∷◌,
  ◌++◌, map, keep, length, In, arith, Bool-cases, Option-cases, if◌then◌else◌, inl, inr,
}
use tak_mdm.Base.Membership.{In-append←, In-map←, In-keep←}
use tak_mdm.Base.Keeping.{first_of-In, first_of-none, keep-append, keep-map_none, one_kept}
use tak_mdm.Base.Text.{text_eq, text_eq_iff}
use tak_mdm.Commands.{
  DeviceCommand, Queue, wipe, new_command, ttl_of, enqueue, is_selected, is_open, cancel,
  cancel_one,
}
use tak_mdm.Commands.Rows.{map-map}
use tak_mdm.Compliance.Actions.{
  Enforcement, is_our_wipe, pending_wipe, wipe_params, say_cancelled, withdraw, sync_wipe,
}

-- The ids of the table are its primary key.
abbrev pub DistinctIds : List DeviceCommand → Type 0
DistinctIds l = (c d : DeviceCommand) → In c l → In d l → c.id ≡ d.id → c ≡ d

-- How many compliance wipes are on their way to the device.
abbrev pub wipes : String → List DeviceCommand → ℕ
wipes device_id l = length (keep (is_our_wipe device_id) l)

new_wipe :
    (now : ℕ) (id device_id : String)
    → is_our_wipe device_id (new_command now id device_id wipe wipe_params (ttl_of none wipe) 5)
      ≡ true
unfolding is_our_wipe is_selected new_command
new_wipe now id device_id = ground (arith, text_eq_iff device_id device_id)

closed_not_ours :
    (device_id : String) (c : DeviceCommand)
    → is_open c.status ≡ false
    → is_our_wipe device_id c ≡ false
unfolding is_our_wipe is_selected
closed_not_ours device_id c h = ground arith

say_cancelled-status : (id : String) (c : DeviceCommand) → (say_cancelled id c).status ≡ c.status
say_cancelled-status id c = elim (Bool-cases (text_eq c.id id)) [
  | inl e ↦ rw e refl
  | inr e ↦ rw e refl
]

cancel_one-closed :
    (now : ℕ) (id : String) (c : DeviceCommand)
    → text_eq c.id id ≡ true
    → is_open (cancel_one now id c).status ≡ false
unfolding cancel_one
cancel_one-closed now id c e = elim (Bool-cases (is_open c.status)) [
  | inl f ↦ rw (e, f) (unfold is_open in refl)
  | inr f ↦ rw (e, f) f
]

cancel_one_other :
    (now : ℕ) (id : String) (c : DeviceCommand)
    → text_eq c.id id ≡ false
    → say_cancelled id (cancel_one now id c) ≡ c
unfolding cancel_one
cancel_one_other now id c e = rw (e, e) refl

withdrawn_not_ours :
    (now : ℕ) (id device_id : String) (c : DeviceCommand)
    → (is_our_wipe device_id c ≡ true → text_eq c.id id ≡ true)
    → is_our_wipe device_id (say_cancelled id (cancel_one now id c)) ≡ false
withdrawn_not_ours now id device_id c h = elim (Bool-cases (text_eq c.id id)) [
  | inl e ↦
      closed_not_ours device_id (say_cancelled id (cancel_one now id c))
        (ap is_open (say_cancelled-status id (cancel_one now id c)) ∙ cancel_one-closed now id c e)
  | inr e ↦ ap (is_our_wipe device_id) (cancel_one_other now id c e) ∙ not_ours e
]
  where
    not_ours : text_eq c.id id ≡ false → is_our_wipe device_id c ≡ false
    not_ours e = elim (Bool-cases (is_our_wipe device_id c)) [
      | inl f ↦ absurd (both (h f) e)
      | inr f ↦ f
    ]
      where
        both : text_eq c.id id ≡ true → text_eq c.id id ≡ false → ⊥
        both p q = cc

-- What `sync_wipe` leaves: no wipe of ours if none is due and one if it is, and every other row.
abbrev pub Synced : String → Bool → List DeviceCommand → List DeviceCommand → Type 0
Synced device_id wanted before after =
    (wipes device_id after ≡ (if wanted then 1 else 0))
    × ((c : DeviceCommand) → In c before → is_our_wipe device_id c ≡ false → In c after)

queued :
    (now : ℕ) (id device_id : String) (l : List DeviceCommand)
    → keep (is_our_wipe device_id) l ≡ []
    → Synced device_id true l
        (l ++ new_command now id device_id wipe wipe_params (ttl_of none wipe) 5 ∷ [])
queued now id device_id l e = (
  ap length (
        keep-append (is_our_wipe device_id) l
          (new_command now id device_id wipe wipe_params (ttl_of none wipe) 5 ∷ []))
      ∙ rw (e, new_wipe now id device_id) refl,
  λ c i h.
      In-append← l (new_command now id device_id wipe wipe_params (ttl_of none wipe) 5 ∷ []) c
        (inl i),
)

module _ (now : ℕ) (device_id : String) (l : List DeviceCommand) (existing : DeviceCommand)
    (found : pending_wipe device_id l ≡ some existing) (one : wipes device_id l ≤ 1) where
  existing-In : In existing l × (is_our_wipe device_id existing ≡ true)
  unfolding pending_wipe
  existing-In = first_of-In (is_our_wipe device_id) l existing found

  is_existing : (c : DeviceCommand) → In c l → is_our_wipe device_id c ≡ true → c ≡ existing
  is_existing c i h =
      one_kept (is_our_wipe device_id) l c existing one (In-keep← (is_our_wipe device_id) l c i h)
        (In-keep← (is_our_wipe device_id) l existing existing-In.0 existing-In.1)

  one_pending : wipes device_id l ≡ 1
  one_pending =
      some_in (keep (is_our_wipe device_id) l) one
        (In-keep← (is_our_wipe device_id) l existing existing-In.0 existing-In.1)
    where
      some_in : (m : List DeviceCommand) → length m ≤ 1 → In existing m → length m ≡ 1
      some_in [] h i = absurd i
      some_in (x ∷ []) h i = refl
      some_in (x ∷ y ∷ m) h i = absurd (omega (arith, h))

  withdraw-map :
      withdraw now existing.id l
      ≡ map (λ c. say_cancelled existing.id (cancel_one now existing.id c)) l
  unfolding withdraw cancel
  withdraw-map = map-map (say_cancelled existing.id) (cancel_one now existing.id) l

  withdrawn : DistinctIds l → Synced device_id false l (withdraw now existing.id l)
  withdrawn ids = (
    ap (wipes device_id) withdraw-map
        ∙ ap length (
            keep-map_none (is_our_wipe device_id)
              (λ c. say_cancelled existing.id (cancel_one now existing.id c)) l
              (λ c i. withdrawn_not_ours now existing.id device_id c (λ h.
                (text_eq_iff c.id existing.id).1
                  (ap (λ (d : DeviceCommand). d.id) (is_existing c i h))))),
    λ c i h. subst (In c) (sym withdraw-map) (kept c i h),
  )
    where
      kept :
          (c : DeviceCommand)
          → In c l
          → is_our_wipe device_id c ≡ false
          → In c (map (λ c. say_cancelled existing.id (cancel_one now existing.id c)) l)
      kept c i h = elim (Bool-cases (text_eq c.id existing.id)) [
        | inl e ↦
            absurd (clash (ids c existing i existing-In.0 ((text_eq_iff c.id existing.id).0 e)))
        | inr e ↦
            subst
              (λ x. In x (map (λ c. say_cancelled existing.id (cancel_one now existing.id c)) l))
              (cancel_one_other now existing.id c e)
              (In-map← (λ c. say_cancelled existing.id (cancel_one now existing.id c)) l c i)
      ]
        where
          clash : c ≡ existing → ⊥
          clash p = cc (ap (is_our_wipe device_id) p, h, existing-In.1)

no_wipes :
    (device_id : String) (l : List DeviceCommand)
    → pending_wipe device_id l ≡ none
    → keep (is_our_wipe device_id) l ≡ []
unfolding pending_wipe
no_wipes device_id l h = first_of-none (is_our_wipe device_id) l h

pub sync_wipe-cases :
    (now : ℕ) (fresh_id device_id : String) (e : Enforcement) (q : Queue)
    → wipes device_id q.commands ≤ 1
    → DistinctIds q.commands
    → (q' : Queue) × (sync_wipe now fresh_id device_id e q ≡ some q')
      × Synced device_id e.wipe_now q.commands q'.commands
unfolding sync_wipe enqueue
sync_wipe-cases now fresh_id device_id e q one ids =
    elim (Option-cases (pending_wipe device_id q.commands)) [
      | inl p ↦ elim (Bool-cases e.wipe_now) [
        | inl w ↦ (
          record {
            commands =
                q.commands
                ++ new_command now fresh_id device_id wipe wipe_params (ttl_of none wipe) 5 ∷ [];
            wakes = q.wakes ++ device_id ∷ [];
          },
          rw (p, w, sync_wipe) refl,
          rw w (queued now fresh_id device_id q.commands (no_wipes device_id q.commands p)),
        )
        | inr w ↦ (
          q,
          rw (p, w, sync_wipe) refl,
          rw w (ap length (no_wipes device_id q.commands p), λ c i h. i),
        )
      ]
      | inr (existing, p) ↦ elim (Bool-cases e.wipe_now) [
        | inl w ↦ (
          q,
          rw (p, w, sync_wipe) refl,
          rw w (one_pending now device_id q.commands existing p one, λ c i h. i),
        )
        | inr w ↦ (
          record q { commands = withdraw now existing.id q.commands },
          rw (p, w, sync_wipe) refl,
          rw w (withdrawn now device_id q.commands existing p one ids),
        )
      ]
    ]
