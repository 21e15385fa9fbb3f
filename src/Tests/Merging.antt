-- ===== src/Tests/Merging.antt =====
-- The theorems on the strategies of app/policies/strategies.py, at concrete contributions.
use tak_mdm.Base.{ℕ, String, true, false, ◌≡◌, ◌↔◌, refl, none, some, List, [], ◌∷◌, map, In}
use tak_mdm.Base.Int.{pos}
use tak_mdm.Json.{
  Value, Items, bool, num, str, arr, obj, nil, cons, end, field, items_of, py_lt, plain,
  is_hashable,
}
use tak_mdm.Merge.{Merge, MergeStrategy, SourceRef, Contribution, MergeOutcome, ok}
use tak_mdm.Merge.Flags.{merge_most_restrictive}
use tak_mdm.Merge.Extremum.{merge_max, merge_min}
use tak_mdm.Merge.Sources.{IsFirst, Rejected}
use tak_mdm.Merge.Denial.{Denied, merge_most_restrictive-denies}
use tak_mdm.Merge.Bounds.{merge_extremes-IsExtremum}
use tak_mdm.Merge.Lists.{items, Keeps}
use tak_mdm.Merge.Intersect.{merge_intersect, same_set}
use tak_mdm.Merge.Intersect.Common.{PermittedByAll, merge_intersect-Common}
use tak_mdm.Merge.ByKey.{find, merge_by_key, entity}
use tak_mdm.Merge.ByKey.Entries.{entries, first_named, disagreeing, name_of}
use tak_mdm.Merge.ByKey.Collisions.{DistinctNames, merge_by_key-Collisions}
use tak_mdm.Merge.Rank.{merge_highest_rank, nonempty, rank_outcome}
use tak_mdm.Merge.Apply.{apply_strategy, strategy_function}
use tak_mdm.Merge.Attribution.{IsAttributed, apply_strategy-IsAttributed}

abbrev source : String → ℕ → SourceRef
source name rank = record {
  assignment_id = name;
  policy_id = name;
  policy_name = name;
  policy_version = 1;
  scope = "group";
  rank = pos rank;
}

abbrev set_by : String → ℕ → Value → Contribution
set_by name rank value = record { value = value; source = source name rank }

-- A stand-in for `json.dumps`, which no test calls on an unhashable item.
abbrev dumps : Value → String
dumps v = ""

abbrev camera_on : Contribution
camera_on = set_by "fleet" 20 (bool true)

abbrev camera_off : Contribution
camera_off = set_by "field" 10 (bool false)

merge_most_restrictive-denies_example :
    (o : MergeOutcome) × (merge_most_restrictive (camera_on ∷ camera_off ∷ []) ≡ ok o)
    × ((o.value ≡ bool false) ↔ Denied (camera_on ∷ camera_off ∷ []))
    × (s : SourceRef) × (o.winner ≡ some s)
    × IsFirst o.value s (camera_on ∷ camera_off ∷ [])
merge_most_restrictive-denies_example =
    merge_most_restrictive-denies camera_on (camera_off ∷ []) ((true, refl), ((false, refl), tt))

abbrev eight : Contribution
eight = set_by "fleet" 20 (num (pos 8))

abbrev twelve : Contribution
twelve = set_by "field" 10 (num (pos 12))

merge_extremes-IsExtremum_example :
    ((o : MergeOutcome) × (merge_max (eight ∷ twelve ∷ []) ≡ ok o)
      × ((d : Contribution) → In d (eight ∷ twelve ∷ []) → py_lt o.value d.value ≡ some false)
      × (s : SourceRef) × (o.winner ≡ some s)
      × IsFirst o.value s (eight ∷ twelve ∷ []))
    × ((o : MergeOutcome) × (merge_min (eight ∷ twelve ∷ []) ≡ ok o)
        × ((d : Contribution) → In d (eight ∷ twelve ∷ []) → py_lt d.value o.value ≡ some false)
        × (s : SourceRef) × (o.winner ≡ some s)
        × IsFirst o.value s (eight ∷ twelve ∷ []))
unfolding plain
merge_extremes-IsExtremum_example =
    merge_extremes-IsExtremum eight (twelve ∷ []) ((pos 8, refl), ((pos 12, refl), tt))

abbrev two_apps : Items
two_apps = cons (str "atak") (cons (str "maps") nil)

abbrev other_apps : Items
other_apps = cons (str "maps") (cons (str "mail") nil)

abbrev fleet_apps : Contribution
fleet_apps = set_by "fleet" 20 (arr two_apps)

abbrev field_apps : Contribution
field_apps = set_by "field" 10 (arr other_apps)

merge_intersect-Common_example :
    (o : MergeOutcome) × (merged : List Value) × (merge_intersect (fleet_apps ∷ field_apps ∷ [])
      ≡ ok o)
    × (o.value ≡ arr (items_of merged))
    × Keeps merged (items fleet_apps)
    × ((v : Value)
        → In v merged ↔ (In v (items fleet_apps) × PermittedByAll v (fleet_apps ∷ field_apps ∷ [])))
    × ((l : Value × SourceRef)
        → In l o.overridden
          ↔ Rejected (λ d. same_set (items d) merged) (fleet_apps ∷ field_apps ∷ []) l)
unfolding is_hashable
merge_intersect-Common_example =
    merge_intersect-Common fleet_apps (field_apps ∷ [])
      (((two_apps, refl), refl), (((other_apps, refl), refl), tt))

-- Two Wi-Fi networks of one name with different passphrases.
abbrev network : String → Value
network secret = obj (field "secret" (str secret) (field "ssid" (str "base") end))

abbrev one_network : String → Items
one_network secret = cons (network secret) nil

abbrev fleet_wifi : Contribution
fleet_wifi = set_by "fleet" 20 (arr (one_network "a"))

abbrev field_wifi : Contribution
field_wifi = set_by "field" 10 (arr (one_network "b"))

abbrev by_ssid : Merge
by_ssid = record {
  strategy = MergeStrategy.merge_by_key;
  key = some "ssid";
  note = none;
  identity = none;
}

merge_by_key-Collisions_example :
    (o : MergeOutcome) × (merged : List (Value × Value)) × (merge_by_key by_ssid
        (fleet_wifi ∷ field_wifi ∷ [])
      ≡ ok o)
    × (o.value ≡ arr (items_of (map (λ e. e.1) merged)))
    × DistinctNames merged
    × ((i : Value)
        → find i merged
          ≡ first_named by_ssid "ssid" i (entries by_ssid "ssid" (fleet_wifi ∷ field_wifi ∷ [])))
    × (o.overridden
        ≡ disagreeing by_ssid "ssid" merged (entries by_ssid "ssid" (fleet_wifi ∷ field_wifi ∷ [])))
    × (o.conflict ≡ nonempty o.overridden)
unfolding entity is_hashable name_of
merge_by_key-Collisions_example =
    merge_by_key-Collisions by_ssid "ssid" (fleet_wifi ∷ field_wifi ∷ []) refl
      (((one_network "a", refl), (refl, tt)), (((one_network "b", refl), (refl, tt)), tt))

abbrev by_rank : Merge
by_rank = record { strategy = MergeStrategy.highest_rank; key = none; note = none; identity = none }

apply_strategy-IsAttributed_example :
    IsAttributed (eight ∷ twelve ∷ []) (rank_outcome eight (twelve ∷ []))
unfolding apply_strategy strategy_function merge_highest_rank
apply_strategy-IsAttributed_example =
    apply_strategy-IsAttributed dumps (eight ∷ twelve ∷ []) by_rank
      (rank_outcome eight (twelve ∷ [])) refl
