-- ===== src/Examples/Scans.antt =====
-- Cooldowns, the event bus, the snapshot store and scans at concrete inputs.
use chainmonitor.Prelude.{ℕ, ◌+◌, ◌*◌, String, ◌≡◌, refl, true, false, List, [], ◌∷◌}
use chainmonitor.Scanner.Models.{Snapshot, high, medium, observe, Level}
use chainmonitor.Scanner.Cooldown.{default_init, init, is_cooling, mark, second}
use chainmonitor.Scanner.Cooldown.Marks.{marks, count, is_cooling-marks}
use chainmonitor.Scanner.Events.{
  Event, EventBus, EventHandler, empty, trending, trending_fetched, subscribe, publish,
}
use chainmonitor.Scanner.Events.Delivery.{publish-failing}

abbrev others : List (ℕ × String × Level)
others = (8, "b", high) ∷ (9, "c", observe) ∷ []

is_cooling-marks_example :
    (is_cooling (700 * second) "a" (marks others (mark 7 "a" high default_init)) ≡ true)
    × (is_cooling (700 * second) "a" (marks others (mark 7 "a" medium default_init)) ≡ true)
    × (is_cooling (700 * second) "a" (marks others (mark 7 "a" observe default_init)) ≡ false)
    × (is_cooling (700 * second) "a" (marks others default_init)
        ≡ is_cooling (700 * second) "a" default_init)
unfolding init count
is_cooling-marks_example = is_cooling-marks others 7 (700 * second) "a" default_init refl

abbrev some_marks : List (ℕ × String × Level)
some_marks = (1, "a", high) ∷ (2, "b", high) ∷ (3, "a", observe) ∷ []

-- A handler that counts, and one that raises.
abbrev counting : EventHandler ℕ ℕ
counting event n = (n + 1, false)

abbrev failing : EventHandler ℕ ℕ
failing event n = (n, true)

abbrev fetched : Event ℕ
fetched = trending_fetched "sol" "1m" 5 100 true

abbrev bus : EventBus ℕ ℕ
bus = subscribe trending failing empty

publish-failing_example :
    publish (subscribe trending failing empty) fetched 3 ≡ publish empty fetched 3
publish-failing_example = publish-failing trending failing empty fetched 3 (λ e v. refl)

abbrev snapshot : Snapshot ℕ
snapshot = record { chain = "sol"; interval = "1m"; tokens = []; taken_at = 9 }
