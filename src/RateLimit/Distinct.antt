-- ===== src/RateLimit/Distinct.antt =====
-- The table of app/security/ratelimit.py as a `dict`: a caller is in it once, and can be deleted.
use tak_mdm.Base.{
  suc, ◌+◌, ◌≤◌, String, true, false, ◌≡◌, ◌≢◌, refl, sym, ap, ◌∙◌, none, some, List, [], ◌∷◌, map,
  length, arith, Bool-cases, inl, inr,
}
use tak_mdm.Base.Text.{text_eq_iff}
use tak_mdm.RateLimit.{Bucket, Buckets, same_caller, find, store, delete, delete_all}
use tak_mdm.RateLimit.Credit.{find-store, same_caller→eq}

-- A `dict` has a key once.
abbrev pub DistinctCallers : Buckets → Type 0
DistinctCallers [] = Unit
DistinctCallers ((k, b) ∷ l) = (find k l ≡ none) × DistinctCallers l

pub same_caller-sym : (a b : String × String) → same_caller a b ≡ same_caller b a
same_caller-sym (s, t) (u, v) =
    ground (arith, text_eq_iff s u, text_eq_iff u s, text_eq_iff t v, text_eq_iff v t)

find-same : (j k : String × String) (l : Buckets) → same_caller j k ≡ true → find j l ≡ find k l
find-same j k l e = ap (λ x. find x l) (same_caller→eq j k e)

pub store-DistinctCallers :
    (k : String × String) (b : Bucket) (l : Buckets)
    → DistinctCallers l
    → DistinctCallers (store k b l)
unfolding store find
store-DistinctCallers k b [] d = (refl, tt)
store-DistinctCallers k b ((j, a) ∷ l) (n, d) = elim (Bool-cases (same_caller j k)) [
  | inl e ↦ rw (e, DistinctCallers) ((n, d))
  | inr e ↦
      rw (e, DistinctCallers)
        ((find-store k j b l ∙ rw (same_caller-sym k j, e) n, store-DistinctCallers k b l d))
]

-- Deleting one caller.
find-delete :
    (j k : String × String) (l : Buckets) → same_caller k j ≡ false → find j (delete k l) ≡ find j l
unfolding find delete
find-delete j k [] e = refl
find-delete j k ((i, a) ∷ l) e = elim (Bool-cases (same_caller i k)) [
  | inl f ↦ rw (f, ap (λ x. same_caller x j) (same_caller→eq i k f) ∙ e) refl
  | inr f ↦ rw f (elim (Bool-cases (same_caller i j)) [
    | inl g ↦ rw g refl
    | inr g ↦ rw g (find-delete j k l e)
  ])
]

find-delete-none :
    (j k : String × String) (l : Buckets) → find j l ≡ none → find j (delete k l) ≡ none
unfolding find delete
find-delete-none j k [] h = refl
find-delete-none j k ((i, a) ∷ l) h = ground (arith, find-delete-none j k l)

delete-DistinctCallers :
    (k : String × String) (l : Buckets) → DistinctCallers l → DistinctCallers (delete k l)
unfolding delete
delete-DistinctCallers k [] d = d
delete-DistinctCallers k ((j, a) ∷ l) (n, d) = elim (Bool-cases (same_caller j k)) [
  | inl e ↦ rw e d
  | inr e ↦ rw (e, DistinctCallers) ((find-delete-none j k l n, delete-DistinctCallers k l d))
]

length-delete :
    (k : String × String) (l : Buckets) → find k l ≢ none → suc (length (delete k l)) ≡ length l
unfolding find delete
length-delete k [] h = absurd (h refl)
length-delete k ((j, a) ∷ l) h = elim (Bool-cases (same_caller j k)) [
  | inl e ↦ rw e refl
  | inr e ↦ rw e (ap suc (length-delete k l (λ n. h (rw e n))))
]

length-delete-le : (k : String × String) (l : Buckets) → length (delete k l) ≤ length l
unfolding delete
length-delete-le k [] = omega arith
length-delete-le k ((j, a) ∷ l) = ground (arith, length-delete-le k l)

-- Entries whose callers are all in the table.
abbrev pub AllFound : Buckets → Buckets → Type 0
AllFound [] l = Unit
AllFound ((k, b) ∷ m) l = (find k l ≢ none) × AllFound m l

AllFound-delete :
    (k : String × String) (m l : Buckets) → find k m ≡ none → AllFound m l → AllFound m (delete k l)
unfolding find
AllFound-delete k [] l h f = f
AllFound-delete k ((j, b) ∷ m) l h (n, f) = elim (Bool-cases (same_caller j k)) [
  | inl e ↦ absurd (set_none (rw e at h))
  | inr e ↦ (
    λ p. n (sym (find-delete j k l (same_caller-sym k j ∙ e)) ∙ p),
    AllFound-delete k m l (rw e at h) f,
  )
]
  where
    set_none : {a : Bucket} → some a ≡ none → ⊥
    set_none p = cc

pub length-delete_all :
    (m l : Buckets)
    → DistinctCallers m
    → AllFound m l
    → length (delete_all (map (λ e. e.0) m) l) + length m ≡ length l
unfolding delete_all
length-delete_all [] l d f = omega arith
length-delete_all ((k, b) ∷ m) l (n, d) (h, f) =
    omega
      (arith, length-delete_all m (delete k l) d (AllFound-delete k m l n f), length-delete k l h)

pub delete_all-DistinctCallers :
    (ks : List (String × String)) (l : Buckets)
    → DistinctCallers l
    → DistinctCallers (delete_all ks l)
unfolding delete_all
delete_all-DistinctCallers [] l d = d
delete_all-DistinctCallers (k ∷ ks) l d =
    delete_all-DistinctCallers ks (delete k l) (delete-DistinctCallers k l d)
