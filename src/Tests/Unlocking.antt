-- ===== src/Tests/Unlocking.antt =====
-- The theorems on app/services/bypass_pin.py, at concrete guesses.
use tak_mdm.Base.{◌<◌, ◌≡◌, refl, some, List, [], ◌∷◌}
use tak_mdm.Base.Text.{text_eq}
use tak_mdm.BypassPin.{
  Texts, Gate, max_attempts, get_or_create, attempts_remaining, answer_of, verify,
}
use tak_mdm.BypassPin.Attempts.{PinCall, trying, renewing, Compares, verify-accepted}

abbrev plain_texts : Texts
plain_texts = record { strip = λ s. s; compare_digest = λ a b. some (text_eq a b) }

abbrev locked : Gate
locked = record {
  stored = some (record { pin = "123456"; updated_by = "system" });
  bypass_attempts = 8;
}

abbrev calls : List PinCall
calls =
    trying "0" "000000" ∷ renewing "654321" "ann" ∷ trying "0" "123456" ∷ trying "0" "654321" ∷ []

compares : Compares plain_texts
compares a b same e = same_flag e
  where
    same_flag : some (text_eq a b) ≡ some same → same ≡ text_eq a b
    same_flag p = cc

verify-accepted_example :
    (locked.bypass_attempts < max_attempts)
    × ((get_or_create "0" locked.stored).0 ≡ plain_texts.strip "123456")
    × (attempts_remaining (verify plain_texts "0" "123456" locked).1 ≡ max_attempts)
unfolding verify get_or_create answer_of
verify-accepted_example = verify-accepted plain_texts "0" "123456" locked compares refl
