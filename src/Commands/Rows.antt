-- ===== src/Commands/Rows.antt =====
-- What the operations of app/services/commands.py do to one row.
use tak_mdm.Base.{
  ℕ, String, false, ◌≡◌, refl, sym, ap, ◌∙◌, List, [], ◌∷◌, map, any, arith, Bool-cases, ◌&&◌, inl,
  inr,
}
use tak_mdm.Base.Text.{text_eq}
use tak_mdm.Commands.{
  DeviceCommand, is_open, is_selected, expire_one, claim_one, Report, is_row_of, record_one,
  record_results,
}

-- All the rounds of `record_results` on one row.
abbrev pub record_all : ℕ → String → List Report → DeviceCommand → DeviceCommand
record_all now device_id [] c = c
record_all now device_id (r ∷ rs) c = record_all now device_id rs (record_one now device_id r c)

module _ {A B C : Type 0} where
  pub map-map : (g : B → C) (f : A → B) (l : List A) → map g (map f l) ≡ map (λ a. g (f a)) l
  map-map g f [] = refl
  map-map g f (x ∷ l) = ap (◌∷◌ (g (f x))) (map-map g f l)

pub map-id : {A : Type 0} (l : List A) → map (λ a. a) l ≡ l
map-id [] = refl
map-id (x ∷ l) = ap (◌∷◌ x) (map-id l)

pub record_results-rows :
    (now : ℕ) (device_id : String) (rs : List Report) (l : List DeviceCommand)
    → (record_results now device_id rs l).1 ≡ map (record_all now device_id rs) l
unfolding record_results
record_results-rows now device_id [] l = sym (map-id l)
record_results-rows now device_id (r ∷ rs) l =
    let rest =
      record_results-rows now device_id rs (map (record_one now device_id r) l)
      ∙ map-map (record_all now device_id rs) (record_one now device_id r) l in
    elim (Bool-cases (any (is_row_of device_id r.command_id) l)) [
      | inl e ↦
          elim (Bool-cases (any (λ c. is_row_of device_id r.command_id c && is_open c.status) l)) [
            | inl f ↦ rw (e, f) rest
            | inr f ↦ rw (e, f) rest
          ]
      | inr e ↦ rw e rest
    ]

-- A finished row is left as it is.
pub expire_one-finished :
    (now : ℕ) (d : String) (c : DeviceCommand) → is_open c.status ≡ false → expire_one now d c ≡ c
unfolding expire_one is_selected
expire_one-finished now d c h = ground arith

pub claim_one-finished :
    (now : ℕ) (d : String) (c : DeviceCommand) → is_open c.status ≡ false → claim_one now d c ≡ c
unfolding claim_one is_selected
claim_one-finished now d c h = ground arith

pub record_one-finished :
    (now : ℕ) (d : String) (r : Report) (c : DeviceCommand)
    → is_open c.status ≡ false
    → record_one now d r c ≡ c
unfolding record_one
record_one-finished now d r c h = ground arith

pub record_all-finished :
    (now : ℕ) (d : String) (rs : List Report) (c : DeviceCommand)
    → is_open c.status ≡ false
    → record_all now d rs c ≡ c
record_all-finished now d [] c h = refl
record_all-finished now d (r ∷ rs) c h =
    ap (record_all now d rs) (record_one-finished now d r c h) ∙ record_all-finished now d rs c h

-- A row of another device is left as it is.
pub expire_one-other :
    (now : ℕ) (d : String) (c : DeviceCommand)
    → text_eq c.device_id d ≡ false
    → expire_one now d c ≡ c
unfolding expire_one is_selected
expire_one-other now d c h = ground arith

pub claim_one-other :
    (now : ℕ) (d : String) (c : DeviceCommand)
    → text_eq c.device_id d ≡ false
    → claim_one now d c ≡ c
unfolding claim_one is_selected
claim_one-other now d c h = ground arith

pub record_all-other :
    (now : ℕ) (d : String) (rs : List Report) (c : DeviceCommand)
    → text_eq c.device_id d ≡ false
    → record_all now d rs c ≡ c
unfolding record_one is_row_of
record_all-other now d [] c h = refl
record_all-other now d (r ∷ rs) c h =
    ap (record_all now d rs) (ground arith) ∙ record_all-other now d rs c h
