-- ===== src/Tests/Alerts.antt =====
-- internal/alert at concrete inputs.
use mathlib.Core.List.{Mem}
use auto_cert.Base.{◌≡◌, refl, ◌↔◌, List, [], ◌∷◌}
use auto_cert.Base.Int.{ℤ, pos, ◌-ℤ◌, ◌+ℤ◌, ◌≤ℤ◌}
use auto_cert.Base.Dict.{insert}
use auto_cert.Model.{Alert}
use auto_cert.Time.{Time, civil_day}
use auto_cert.Alert.{evaluate, days_between}
use auto_cert.Alert.Days.{days_between-civil_day, days_between_past, clamp_days}
use auto_cert.Alert.Triggers.{Triggers, attributed, evaluate-Triggers}
use auto_cert.Tests.Samples.{day, example_domain, example_cert, example_info, example_alert}

abbrev two_thresholds : List ℤ
two_thresholds = pos 7 ∷ pos 3 ∷ []

evaluate-Triggers_example :
    Mem example_alert (
      evaluate
        (day (pos 95))
        (example_domain ∷ [])
        (example_cert ∷ [])
        (example_info ∷ [])
        two_thresholds)
    ↔ ∥ (
        (b : Alert) × Triggers
          (day (pos 95))
          (example_cert ∷ [])
          (example_info ∷ [])
          two_thresholds
          b
        × (attributed (example_domain ∷ []) b ≡ example_alert)) ∥₁
evaluate-Triggers_example =
    evaluate-Triggers (day (pos 95)) (example_domain ∷ []) (example_cert ∷ []) (example_info ∷ [])
      two_thresholds example_alert

-- The run raises just the alert of the larger threshold.
evaluate_test :
    evaluate
      (day (pos 95))
      (example_domain ∷ [])
      (example_cert ∷ [])
      (example_info ∷ [])
      two_thresholds
    ≡ example_alert ∷ []
unfolding evaluate days_between ◌-ℤ◌ ◌+ℤ◌ insert
evaluate_test = refl

days_between-civil_day_example :
    days_between (day (pos 95)) (day (pos 100))
    ≡ clamp_days (civil_day (day (pos 100)) -ℤ civil_day (day (pos 95)))
days_between-civil_day_example = days_between-civil_day (day (pos 95)) (day (pos 100))

-- An hour into day 100.
abbrev later_that_day : Time
later_that_day = record { instant = pos 8643600000000000; zone = pos 0 }

days_between_past_example :
    (days_between later_that_day (day (pos 100)) ≤ℤ pos 0)
    × ((days_between later_that_day (day (pos 100)) ≡ pos 0)
        ↔ (civil_day (day (pos 100)) ≡ civil_day later_that_day))
days_between_past_example = days_between_past later_that_day (day (pos 100)) refl refl
