-- ===== src/Scanner/Cooldown/Marks.antt =====
-- What a mark changes.
use chainmonitor.Prelude.{
  ℕ, ◌+◌, ◌*◌, ◌≤◌, String, ◌≡◌, refl, ap, ◌⊎◌, List, [], ◌∷◌, arith, str_eq, eq_iff, ltb,
  if◌then◌else◌,
}
use chainmonitor.Dict.{get_or, get-put}
use chainmonitor.Scanner.Models.{Level, high, medium, observe}
use chainmonitor.Scanner.Cooldown.{
  CooldownManager, second, is_cooling, decay_factor, level_seconds, mark,
}

-- The marks that an address has had.
abbrev pub hits : String → CooldownManager → ℕ
hits address c = get_or c.hit_counts address 0

pub hits-mark :
    (now : ℕ) (address other : String) (level : Level) (c : CooldownManager)
    → hits other (mark now address level c) ≡ hits other c + (if str_eq address other then 1 else 0)
unfolding mark
hits-mark now address other level c = ground (
  arith,
  get-put c.hit_counts address other (get_or c.hit_counts address 0 + 1),
  eq_iff address other,
)

-- Marks at the given times, each of an address at a level.
pub marks : List (ℕ × String × Level) → CooldownManager → CooldownManager
marks [] c = c
marks ((now, address, level) ∷ ms) c = marks ms (mark now address level c)

-- How many of the marks are of the address.
unfoldable pub count : String → List (ℕ × String × Level) → ℕ
count other [] = 0
count other ((now, address, level) ∷ ms) = (if str_eq address other then 1 else 0) + count other ms

expires-marks :
    (ms : List (ℕ × String × Level)) (address : String) (c : CooldownManager)
    → count address ms ≡ 0
    → get_or (marks ms c).cooldown address 0 ≡ get_or c.cooldown address 0
unfolding marks count mark
expires-marks [] address c fresh = refl
expires-marks ((now, other, level) ∷ ms) address c fresh = ground (
  arith,
  expires-marks ms address (mark now other level c),
  get-put c.cooldown other address (now + level_seconds level c * second),
)

marked :
    (ms : List (ℕ × String × Level)) (now later : ℕ) (address : String) (level : Level)
    (c : CooldownManager)
    → count address ms ≡ 0
    → is_cooling later address (marks ms (mark now address level c))
      ≡ ltb later (now + level_seconds level c * second)
unfolding is_cooling mark
marked ms now later address level c fresh = ground (
  arith,
  expires-marks ms address (mark now address level c) fresh,
  get-put c.cooldown address address (now + level_seconds level c * second),
  eq_iff address address,
)

-- An address cools exactly until the seconds that are configured for the level of its last mark
-- have passed since that mark, whatever marks came before it and whatever marks of other addresses
-- come after it; those change nothing of an address that is not among them.
pub is_cooling-marks :
    (ms : List (ℕ × String × Level)) (now later : ℕ) (address : String) (c : CooldownManager)
    → count address ms ≡ 0
    → (is_cooling later address (marks ms (mark now address high c))
        ≡ ltb later (now + c.cooldown_high_seconds * second))
      × (is_cooling later address (marks ms (mark now address medium c))
          ≡ ltb later (now + c.cooldown_medium_seconds * second))
      × (is_cooling later address (marks ms (mark now address observe c))
          ≡ ltb later (now + c.cooldown_observe_seconds * second))
      × (is_cooling later address (marks ms c) ≡ is_cooling later address c)
unfolding level_seconds is_cooling
is_cooling-marks ms now later address c fresh = (
  marked ms now later address high c fresh,
  marked ms now later address medium c fresh,
  marked ms now later address observe c fresh,
  ap (λ (t : ℕ). ltb later t) (expires-marks ms address c fresh),
)

hits-marks :
    (ms : List (ℕ × String × Level)) (other : String) (c : CooldownManager)
    → hits other (marks ms c) ≡ hits other c + count other ms
unfolding marks count
hits-marks [] other c = omega arith
hits-marks ((now, address, level) ∷ ms) other c =
    omega
      (arith, hits-marks ms other (mark now address level c), hits-mark now address other level c)

-- The decay factor of an address after any marks, from none: 1.0 up to one mark of that address,
-- 0.6 after the second, and 0.3 from the third on; marks of other addresses do not count.
pub decay_factor-marks :
    (ms : List (ℕ × String × Level)) (address : String) (c : CooldownManager)
    → hits address c ≡ 0
    → ((count address ms ≤ 1) × (decay_factor address (marks ms c) ≡ 10))
      ⊎ ((count address ms ≡ 2) × (decay_factor address (marks ms c) ≡ 6))
      ⊎ ((3 ≤ count address ms) × (decay_factor address (marks ms c) ≡ 3))
unfolding decay_factor
decay_factor-marks ms address c fresh = ground (arith, hits-marks ms address c)
