-- ===== src/Tests/Queueing.antt =====
-- The theorems on app/services/commands.py, at concrete tables.
use tak_mdm.Base.{true, ◌≡◌, ◌↔◌, refl, sym, subst, none, some, List, [], ◌∷◌, In, inl, inr, arith}
use tak_mdm.Base.Text.{text_eq}
use tak_mdm.Json.{end}
use tak_mdm.Commands.{
  reboot, ping, lock, succeeded, DeviceCommand, Queue, is_open, is_live, new_command,
  claim_for_delivery, Report, record_results,
}
use tak_mdm.Commands.History.{
  Operation, claiming, recording, expiring, after_all, after_all-finished,
}
use tak_mdm.Commands.Soundness.{IsSound, after_all-IsSound}
use tak_mdm.Commands.Delivery.{handed, claim_for_delivery-exact}
use tak_mdm.Commands.Results.{record_results-again}

-- A reboot that waits, a ping whose hour is over, a lock of another device, and a finished reboot.
abbrev waiting : DeviceCommand
waiting = new_command 100 "w" "tablet" reboot end 24 5

abbrev late : DeviceCommand
late = new_command 0 "p" "tablet" ping end 1 5

abbrev elsewhere : DeviceCommand
elsewhere = new_command 100 "l" "phone" lock end 72 5

abbrev finished : DeviceCommand
finished = record waiting {
  id = "f";
  status = succeeded;
  attempts = 1;
  dispatched_at = some 110;
  completed_at = some 120;
}

abbrev table : List DeviceCommand
table = waiting ∷ late ∷ elsewhere ∷ finished ∷ []

abbrev queue : Queue
queue = record { commands = table; wakes = [] }

abbrev report : Report
report = record { command_id = "w"; succeeded_flag = true; result = none; error = none }

abbrev stray : Report
stray = record { command_id = "l"; succeeded_flag = true; result = none; error = none }

abbrev day : List Operation
day =
    claiming 5000 5001 "tablet"
    ∷ recording 5002 "tablet" (report ∷ stray ∷ [])
    ∷ expiring 9000 "phone"
    ∷ []

after_all-finished_example : In finished (after_all day queue).commands
unfolding is_open
after_all-finished_example = after_all-finished day queue finished refl (inr (inr (inr (inl refl))))

some_set : {A : Type 0} (a : A) → some a ≡ none → ⊥
some_set a h = cc

table-IsSound : (c : DeviceCommand) → In c table → IsSound c
unfolding new_command
table-IsSound c (inl p) = subst IsSound (sym p) ((omega arith, (refl, refl, refl)))
table-IsSound c (inr (inl p)) = subst IsSound (sym p) ((omega arith, (refl, refl, refl)))
table-IsSound c (inr (inr (inl p))) = subst IsSound (sym p) ((omega arith, (refl, refl, refl)))
table-IsSound c (inr (inr (inr (inl p)))) = subst IsSound (sym p) ((omega arith, some_set 120))
table-IsSound c (inr (inr (inr (inr i)))) = absurd i

after_all-IsSound_example : IsSound finished
unfolding is_open
after_all-IsSound_example =
    after_all-IsSound day queue table-IsSound finished
      (after_all-finished day queue finished refl (inr (inr (inr (inl refl)))))

claim_for_delivery-exact_example :
    In (handed 5001 waiting) (claim_for_delivery 5000 5001 "tablet" table).0 ↔ (
      (b : DeviceCommand) × In b table
      × (text_eq b.device_id "tablet" ≡ true)
      × (is_live 5001 b ≡ true)
      × (handed 5001 waiting ≡ handed 5001 b))
claim_for_delivery-exact_example =
    claim_for_delivery-exact 5000 5001 "tablet" table (omega arith) (handed 5001 waiting)

record_results-again_example :
    ((record_results 6000 "tablet"
        (report ∷ stray ∷ [])
        (record_results 5002 "tablet" (report ∷ stray ∷ []) table).1).0.0
      ≡ 0)
    × ((record_results 6000 "tablet"
          (report ∷ stray ∷ [])
          (record_results 5002 "tablet" (report ∷ stray ∷ []) table).1).1
        ≡ (record_results 5002 "tablet" (report ∷ stray ∷ []) table).1)
record_results-again_example = record_results-again 5002 6000 "tablet" (report ∷ stray ∷ []) table
