-- ===== src/Scanner/Cooldown/Pool.antt =====
-- `pool_size`: the addresses that are cooling.
use chainmonitor.Prelude.{ℕ, ◌+◌, ◌*◌, ◌<◌, String, ◌≡◌, [], ◌∷◌, arith, ltb, if◌then◌else◌}
use chainmonitor.Dict
use chainmonitor.Dict.{Dict, get_or}
use chainmonitor.Scanner.Models.{Level}
use chainmonitor.Scanner.Cooldown.{
  CooldownManager, second, is_cooling, level_seconds, mark, count_after, pool_size,
}

count_after-put :
    (now expires : ℕ) (address : String) (d : Dict ℕ)
    → count_after now (Dict.put d address expires) + (if ltb now (get_or d address 0) then 1 else 0)
      ≡ count_after now d + (if ltb now expires then 1 else 0)
unfolding count_after Dict.put Dict.get
count_after-put now expires address [] = ground arith
count_after-put now expires address ((a, e) ∷ d) =
    ground (arith, count_after-put now expires address d)

-- A mark that has not run out adds its address to the pool, if it was not cooling already.
pub pool_size-mark :
    (now later : ℕ) (address : String) (level : Level) (c : CooldownManager)
    → later < now + level_seconds level c * second
    → pool_size later (mark now address level c)
      ≡ pool_size later c + (if is_cooling later address c then 0 else 1)
unfolding pool_size mark is_cooling
pool_size-mark now later address level c h =
    ground (arith, count_after-put later (now + level_seconds level c * second) address c.cooldown)
