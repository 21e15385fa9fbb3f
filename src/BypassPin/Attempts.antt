-- ===== src/BypassPin/Attempts.antt =====
-- How often the PIN of app/services/bypass_pin.py can be guessed.
use tak_mdm.Base.{
  ℕ, suc, ◌-◌, ◌<◌, String, Bool, true, false, ◌≡◌, ◌≢◌, refl, sym, ap, ◌∙◌, Option, none, some,
  List, [], ◌∷◌, arith, Bool-cases, if◌then◌else◌, leb, inl, inr,
}
use tak_mdm.Base.Text.{text_eq, text_eq_iff}
use tak_mdm.BypassPin.{
  Texts, Gate, max_attempts, get_or_create, regenerate, attempts_remaining, Answer, accepted,
  rejected, answer_of, verify,
}

pub data PinCall : Type 0 where
  trying : String → String → PinCall
  renewing : String → String → PinCall

-- Where `compare_digest` answers, it answers whether the texts are the same.
abbrev pub Compares : Texts → Type 0
Compares lib =
    (a b : String) (same : Bool) → lib.compare_digest a b ≡ some same → same ≡ text_eq a b

module _ (lib : Texts) where
  unfoldable pub after_call : PinCall → Gate → Gate
  unfolding verify regenerate
  after_call (trying fresh candidate) g = (verify lib fresh candidate g).1
  after_call (renewing fresh by) g = regenerate fresh by g

  -- No call of these is answered by an acceptance.
  abbrev pub NoneAccepted : List PinCall → Gate → Type 0
  NoneAccepted [] g = Unit
  NoneAccepted (trying fresh candidate ∷ calls) g =
      ((verify lib fresh candidate g).0 ≢ accepted)
      × NoneAccepted calls (after_call (trying fresh candidate) g)
  NoneAccepted (renewing fresh by ∷ calls) g = NoneAccepted calls (after_call (renewing fresh by) g)

  -- How many of the calls have attempts left, so that their candidate is compared.
  unfoldable pub guesses : List PinCall → Gate → ℕ
  unfolding after_call
  guesses [] g = 0
  guesses (trying fresh candidate ∷ calls) g =
      let rest = guesses calls (after_call (trying fresh candidate) g) in
      if leb max_attempts g.bypass_attempts then rest else suc rest
  guesses (renewing fresh by ∷ calls) g = guesses calls (after_call (renewing fresh by) g)

  refused_verify :
      (fresh candidate : String) (g : Gate)
      → leb max_attempts g.bypass_attempts ≡ true
      → verify lib fresh candidate g ≡ (rejected, g)
  unfolding verify
  refused_verify fresh candidate g e = rw e refl

  -- the gate with one more attempt
  abbrev counted : String → Gate → Gate
  unfolding get_or_create
  counted fresh g = record {
    stored = (get_or_create fresh g.stored).1;
    bypass_attempts = suc g.bypass_attempts;
  }

  compared_verify :
      (fresh candidate : String) (g : Gate)
      → leb max_attempts g.bypass_attempts ≡ false
      → verify lib fresh candidate g
        ≡ answer_of
            (counted fresh g)
            (lib.compare_digest (get_or_create fresh g.stored).0 (lib.strip candidate))
  unfolding verify counted
  compared_verify fresh candidate g e = rw e refl

  answer_of-accepts :
      (g : Gate) (r : Option Bool)
      → (answer_of g r).0 ≡ accepted
      → (r ≡ some true) × ((answer_of g r).1.bypass_attempts ≡ 0)
  unfolding answer_of
  answer_of-accepts g none h = absurd (cc)
  answer_of-accepts g (some true) h = (refl, refl)
  answer_of-accepts g (some false) h = absurd (cc)

  attempts_below :
      (g : Gate) → leb max_attempts g.bypass_attempts ≡ false → g.bypass_attempts < max_attempts
  attempts_below g e = ground arith

  -- A guess is accepted only while attempts are left, only if it is the PIN of the install, blanks at
  -- its ends apart, which is generated with it if there was none; and it gives all attempts back.
  pub verify-accepted :
      (fresh candidate : String) (g : Gate)
      → Compares lib
      → (verify lib fresh candidate g).0 ≡ accepted
      → (g.bypass_attempts < max_attempts)
        × ((get_or_create fresh g.stored).0 ≡ lib.strip candidate)
        × (attempts_remaining (verify lib fresh candidate g).1 ≡ max_attempts)
  unfolding attempts_remaining
  verify-accepted fresh candidate g compares h =
      elim (Bool-cases (leb max_attempts g.bypass_attempts)) [
        | inl e ↦ absurd (
            no_refusal
              (sym (ap (λ (x : Answer × Gate). x.0) (refused_verify fresh candidate g e)) ∙ h))
        | inr e ↦
            let p = compared_verify fresh candidate g e in
            let (said, reset) =
              answer_of-accepts (counted fresh g)
                (lib.compare_digest (get_or_create fresh g.stored).0 (lib.strip candidate))
                (sym (ap (λ (x : Answer × Gate). x.0) p) ∙ h) in
            (
              attempts_below g e,
              (text_eq_iff (get_or_create fresh g.stored).0 (lib.strip candidate)).0
                  (sym (compares (get_or_create fresh g.stored).0 (lib.strip candidate) true said)),
              ap (λ (n : ℕ). max_attempts - n)
                  (ap (λ (x : Answer × Gate). x.1.bypass_attempts) p ∙ reset),
            )
      ]
    where
      no_refusal : rejected ≡ accepted → ⊥
      no_refusal k = cc
