-- ===== src/Scanner/Cooldown.antt =====
-- src/scanner/cooldown.py: `CooldownManager`. Times are whole microseconds, the resolution of
-- `datetime`; the configured seconds are whole seconds, and a decay factor is in tenths.
pub mod Marks
pub mod Pool
use chainmonitor.Prelude.{
  ℕ, ◌+◌, ◌-◌, ◌*◌, ◌/◌, String, Bool, [], ◌∷◌, ltb, leb, ◌==◌, if◌then◌else◌,
}
use chainmonitor.Dict
use chainmonitor.Dict.{Dict, get_or}
use chainmonitor.Scanner.Models.{Level, high, medium, observe}

pub record CooldownManager : Type 0 where
  pub cooldown : Dict ℕ
  pub hit_counts : Dict ℕ
  pub cooldown_high_seconds : ℕ
  pub cooldown_medium_seconds : ℕ
  pub cooldown_observe_seconds : ℕ

unfoldable pub init : ℕ → ℕ → ℕ → CooldownManager
init cooldown_high cooldown_medium cooldown_observe = record {
  cooldown = [];
  hit_counts = [];
  cooldown_high_seconds = cooldown_high;
  cooldown_medium_seconds = cooldown_medium;
  cooldown_observe_seconds = cooldown_observe;
}

abbrev pub default_init : CooldownManager
default_init = init 900 1800 300

-- A second, in microseconds.
abbrev pub second : ℕ
second = 1_000_000

unfoldable pub is_cooling : ℕ → String → CooldownManager → Bool
is_cooling now address c = ltb now (get_or c.cooldown address 0)

unfoldable pub decay_factor : String → CooldownManager → ℕ
decay_factor address c =
    let hits = get_or c.hit_counts address 0 in
    if leb 3 hits then 3 else if hits == 2 then 6 else 10

-- The seconds that a level cools for.
unfoldable pub level_seconds : Level → CooldownManager → ℕ
level_seconds high c = c.cooldown_high_seconds
level_seconds observe c = c.cooldown_observe_seconds
level_seconds medium c = c.cooldown_medium_seconds

unfoldable pub mark : ℕ → String → Level → CooldownManager → CooldownManager
mark now address level c = record c {
  cooldown = Dict.put c.cooldown address (now + level_seconds level c * second);
  hit_counts = Dict.put c.hit_counts address (get_or c.hit_counts address 0 + 1);
}

count_after : ℕ → Dict ℕ → ℕ
count_after now [] = 0
count_after now ((address, expires) ∷ d) = (if ltb now expires then 1 else 0) + count_after now d

unfoldable pub pool_size : ℕ → CooldownManager → ℕ
unfolding count_after
pool_size now c = count_after now c.cooldown
