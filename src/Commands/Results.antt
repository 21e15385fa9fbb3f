-- ===== src/Commands/Results.antt =====
-- What the reported results of app/services/commands.py do to the table.
use tak_mdm.Base.{
  ℕ, String, Bool, true, false, ◌≡◌, refl, sym, ap, ◌∙◌, subst, List, [], ◌∷◌, map, keep, any, In,
  Bool-cases, if◌then◌else◌, not, ◌&&◌, inl, inr,
}
use tak_mdm.Base.Text.{text_eq}
use tak_mdm.Base.Membership.{In-map→, In-map←}
use tak_mdm.Commands.{
  DeviceCommand, is_open, expire_one, expire_stale, claim_one, claim_for_delivery, Report,
  is_row_of, record_one, record_results,
}
use tak_mdm.Commands.Rows.{
  record_all, record_results-rows, expire_one-other, claim_one-other, record_all-other,
}

-- A row keeps its ids, so a report names the same rows after another.
record_one-is_row_of :
    (now : ℕ) (d : String) (r : Report) (e k : String) (c : DeviceCommand)
    → is_row_of e k (record_one now d r c) ≡ is_row_of e k c
unfolding record_one is_row_of
record_one-is_row_of now d r e k c =
    elim (Bool-cases (is_row_of d r.command_id c && is_open c.status)) [
      | inl f ↦ rw f refl
      | inr f ↦ rw f refl
    ]

any-map-same :
    (p : DeviceCommand → Bool) (f : DeviceCommand → DeviceCommand)
    → ((c : DeviceCommand) → p (f c) ≡ p c)
    → (l : List DeviceCommand) → any p (map f l) ≡ any p l
any-map-same p f same [] = refl
any-map-same p f same (c ∷ l) =
    ap (λ b. if b then true else any p (map f l)) (same c)
    ∙ ap (λ b. if p c then true else b) (any-map-same p f same l)

keep-same :
    {A : Type 0} (p q : A → Bool) → ((a : A) → p a ≡ q a) → (l : List A) → keep p l ≡ keep q l
keep-same p q same [] = refl
keep-same p q same (a ∷ l) =
    ap (λ b. if b then a ∷ keep p l else keep p l) (same a)
    ∙ ap (λ k. if q a then a ∷ k else k) (keep-same p q same l)

-- `record_results` reports as unknown exactly the reported ids that no command of the device has,
-- in the order of the reports.
pub record_results-unknown :
    (now : ℕ) (d : String) (rs : List Report) (l : List DeviceCommand)
    → (record_results now d rs l).0.1
      ≡ map (λ r. r.command_id) (keep (λ r. not (any (is_row_of d r.command_id) l)) rs)
unfolding record_results
record_results-unknown now d [] l = refl
record_results-unknown now d (r ∷ rs) l =
    let rest =
      record_results-unknown now d rs (map (record_one now d r) l)
      ∙ ap (map (λ s. s.command_id)) (
          keep-same _ _
            (λ s. ap not (
              any-map-same (is_row_of d s.command_id) (record_one now d r)
                (record_one-is_row_of now d r d s.command_id) l))
            rs) in
    elim (Bool-cases (any (is_row_of d r.command_id) l)) [
      | inl e ↦ elim (Bool-cases (any (λ c. is_row_of d r.command_id c && is_open c.status) l)) [
        | inl f ↦ rw (e, f) rest
        | inr f ↦ rw (e, f) rest
      ]
      | inr e ↦ rw e (ap (◌∷◌ r.command_id) rest)
    ]

-- The commands that a report would still change.
abbrev is_waiting : String → Report → DeviceCommand → Bool
is_waiting d r c = is_row_of d r.command_id c && is_open c.status

-- A report is settled once no command that it names is open.
abbrev Settled : String → List Report → DeviceCommand → Type 0
Settled d rs c = (r : Report) → In r rs → is_waiting d r c ≡ false

not_waiting :
    (now : ℕ) (d : String) (r : Report) (c : DeviceCommand)
    → is_waiting d r c ≡ false
    → record_one now d r c ≡ c
unfolding record_one
not_waiting now d r c h = rw h refl

record_one-closes :
    (now : ℕ) (d : String) (r : Report) (c : DeviceCommand)
    → is_waiting d r c ≡ true
    → is_open (record_one now d r c).status ≡ false
unfolding record_one is_open
record_one-closes now d r c h =
    rw h (elim (Bool-cases r.succeeded_flag) [ inl f ↦ rw f refl | inr f ↦ rw f refl ])

closed_settled :
    (d : String) (r : Report) (c : DeviceCommand)
    → is_open c.status ≡ false
    → is_waiting d r c ≡ false
closed_settled d r c h =
    rw h (elim (Bool-cases (is_row_of d r.command_id c)) [ inl f ↦ rw f refl | inr f ↦ rw f refl ])

settled_at_once :
    (now : ℕ) (d : String) (r : Report) (c : DeviceCommand)
    → is_waiting d r (record_one now d r c) ≡ false
settled_at_once now d r c = elim (Bool-cases (is_waiting d r c)) [
  | inl e ↦ closed_settled d r _ (record_one-closes now d r c e)
  | inr e ↦ subst (λ b. is_waiting d r b ≡ false) (sym (not_waiting now d r c e)) e
]

stays_settled :
    (now : ℕ) (d : String) (r s : Report) (c : DeviceCommand)
    → is_waiting d r c ≡ false
    → is_waiting d r (record_one now d s c) ≡ false
stays_settled now d r s c h = elim (Bool-cases (is_waiting d s c)) [
  | inl e ↦ closed_settled d r _ (record_one-closes now d s c e)
  | inr e ↦ subst (λ b. is_waiting d r b ≡ false) (sym (not_waiting now d s c e)) h
]

all_settled_still :
    (now : ℕ) (d : String) (r : Report) (rs : List Report) (c : DeviceCommand)
    → is_waiting d r c ≡ false
    → is_waiting d r (record_all now d rs c) ≡ false
all_settled_still now d r [] c h = h
all_settled_still now d r (s ∷ rs) c h =
    all_settled_still now d r rs (record_one now d s c) (stays_settled now d r s c h)

record_all-Settled :
    (now : ℕ) (d : String) (rs : List Report) (c : DeviceCommand)
    → Settled d rs (record_all now d rs c)
record_all-Settled now d [] c r i = absurd i
record_all-Settled now d (s ∷ rs) c r (inl p) =
    subst (λ t. is_waiting d t (record_all now d (s ∷ rs) c) ≡ false) (sym p)
      (all_settled_still now d s rs (record_one now d s c) (settled_at_once now d s c))
record_all-Settled now d (s ∷ rs) c r (inr i) =
    record_all-Settled now d rs (record_one now d s c) r i

map-same :
    (f : DeviceCommand → DeviceCommand) (l : List DeviceCommand)
    → ((c : DeviceCommand) → In c l → f c ≡ c)
    → map f l ≡ l
map-same f [] same = refl
map-same f (c ∷ l) same =
    ap (λ b. b ∷ map f l) (same c (inl refl)) ∙ ap (◌∷◌ c) (map-same f l (λ b i. same b (inr i)))

none_waiting :
    (d : String) (r : Report) (l : List DeviceCommand)
    → ((c : DeviceCommand) → In c l → is_waiting d r c ≡ false)
    → any (is_waiting d r) l ≡ false
none_waiting d r [] h = refl
none_waiting d r (c ∷ l) h = rw (h c (inl refl)) (none_waiting d r l (λ b i. h b (inr i)))

record_results-idle :
    (now : ℕ) (d : String) (rs : List Report) (l : List DeviceCommand)
    → ((c : DeviceCommand) → In c l → Settled d rs c)
    → ((record_results now d rs l).0.0 ≡ 0) × ((record_results now d rs l).1 ≡ l)
unfolding record_results
record_results-idle now d [] l h = (refl, refl)
record_results-idle now d (r ∷ rs) l h =
    let quiet = λ (c : DeviceCommand) (i : In c l). h c i r (inl refl) in
    let same = map-same (record_one now d r) l (λ c i. not_waiting now d r c (quiet c i)) in
    let rest = record_results-idle now d rs l (λ c i s j. h c i s (inr j)) in
    let none_left = none_waiting d r l quiet in
    elim (Bool-cases (any (is_row_of d r.command_id) l)) [
      | inl e ↦ rw (e, none_left, same) rest
      | inr e ↦ rw (e, same) rest
    ]

-- A device that reports the same results again, at whatever time, changes nothing: no further
-- command counts as applied, and the table stays as the first report left it.
pub record_results-again :
    (now later : ℕ) (d : String) (rs : List Report) (l : List DeviceCommand)
    → ((record_results later d rs (record_results now d rs l).1).0.0 ≡ 0)
      × ((record_results later d rs (record_results now d rs l).1).1
          ≡ (record_results now d rs l).1)
record_results-again now later d rs l =
    record_results-idle later d rs (record_results now d rs l).1 (λ c i.
      let (b, j, q) =
        In-map→ (record_all now d rs) l c (subst (In c) (record_results-rows now d rs l) i) in
      subst (Settled d rs) (sym q) (record_all-Settled now d rs b))

-- What `expire_stale`, `claim_for_delivery` and `record_results` do for one device leaves every
-- command of another device in the table as it was.
pub others_untouched :
    (expire_now now : ℕ) (d : String) (rs : List Report) (l : List DeviceCommand)
    (c : DeviceCommand)
    → text_eq c.device_id d ≡ false
    → In c l
    → In c (expire_stale now d l).1
      × In c (claim_for_delivery expire_now now d l).1
      × In c (record_results now d rs l).1
unfolding expire_stale claim_for_delivery
others_untouched expire_now now d rs l c h i =
    let expired_row = λ (t : ℕ).
      subst (λ b. In b (map (expire_one t d) l)) (expire_one-other t d c h)
        (In-map← (expire_one t d) l c i) in
    (
      expired_row now,
      subst (λ b. In b (map (claim_one now d) (map (expire_one expire_now d) l)))
          (claim_one-other now d c h) (In-map← (claim_one now d) _ c (expired_row expire_now)),
      subst (In c) (sym (record_results-rows now d rs l)) (
          subst (λ b. In b (map (record_all now d rs) l)) (record_all-other now d rs c h)
            (In-map← (record_all now d rs) l c i)),
    )
