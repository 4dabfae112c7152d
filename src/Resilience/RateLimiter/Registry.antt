-- ===== src/Resilience/RateLimiter/Registry.antt =====
-- `RateLimiterRegistry`: one shared bucket per name, held by reference. A new bucket reads the
-- clock. `strip_lower` is `str.strip` and then `str.lower`.
use chainmonitor.Dict.{Dict, get, put, get-put}
use chainmonitor.Prelude.{
  ℕ, ◌+◌, ◌-◌, ◌*◌, ◌≤◌, max, String, ◌≡◌, refl, ap, inl, inr, Bool, false, ◌||◌, Option, none,
  some, List, [], ◌∷◌, ◌++◌, arith, eq_iff, ltb, if◌then◌else◌, Bool-cases, length, get_elem?,
  get_elem?-append_last,
}
use chainmonitor.Resilience.RateLimiter.{AsyncTokenBucket, token, normal_rate, init}

pub record RateLimiterRegistry : Type 0 where
  pub objects : List AsyncTokenBucket
  pub buckets : Dict ℕ

-- abs(a - b)
abbrev distance : ℕ → ℕ → ℕ
distance a b = (a - b) + (b - a)

-- The settings of a bucket are not those asked for, by more than 1e-9: that is 1 in the unit of
-- rates, and 10^9 in that of capacities.
unfoldable pub differs : AsyncTokenBucket → ℕ → ℕ → Bool
differs b rate capacity =
    ltb 1 (distance b.rate_per_second rate)
    || ltb 1_000_000_000 (distance b.capacity (capacity * token))

unfoldable pub create : String → AsyncTokenBucket → RateLimiterRegistry → ℕ × RateLimiterRegistry
create key bucket r =
    let ref = length r.objects in
    (ref, record { objects = r.objects ++ bucket ∷ []; buckets = put r.buckets key ref })

-- The bucket under the key, if there is one.
unfoldable pub registered : RateLimiterRegistry → String → Option (ℕ × AsyncTokenBucket)
registered r key = elim (get r.buckets key) [
  | none ↦ none
  | some ref ↦ elim (get_elem? r.objects ref) [ none ↦ none | some b ↦ some (ref, b) ]
]

reuse :
    Option (ℕ × AsyncTokenBucket)
    → String
    → ℕ
    → ℕ
    → ℕ
    → RateLimiterRegistry
    → ℕ × RateLimiterRegistry
reuse none key now rate capacity r = create key (init now rate capacity) r
reuse (some (ref, b)) key now rate capacity r =
    if differs b rate capacity then create key (init now rate capacity) r else (ref, r)

module _ (strip_lower : String → String) where
  unfoldable pub get_bucket : ℕ → String → ℕ → ℕ → RateLimiterRegistry → ℕ × RateLimiterRegistry
  unfolding reuse
  get_bucket now name rate_per_second capacity r =
      let key = strip_lower name in
      reuse (registered r key) key now (normal_rate rate_per_second) (max 1 capacity) r

registered-create :
    (key : String) (b : AsyncTokenBucket) (r : RateLimiterRegistry)
    → registered (create key b r).1 key ≡ some (length r.objects, b)
unfolding registered create
registered-create key b r = ground (
  arith,
  get-put r.buckets key key (length r.objects),
  eq_iff key key,
  get_elem?-append_last r.objects b,
)

-- The state of the registry in which a key has a bucket with settings that fit the request.
abbrev pub Holds : RateLimiterRegistry → String → ℕ → ℕ → ℕ → Type 0
Holds r key rate capacity ref =
    (b : AsyncTokenBucket) × (registered r key ≡ some (ref, b))
    × (differs b (normal_rate rate) (max 1 capacity) ≡ false)

differs-init :
    (now rate capacity : ℕ)
    → differs (init now (normal_rate rate) (max 1 capacity)) (normal_rate rate) (max 1 capacity)
      ≡ false
unfolding differs init
differs-init now rate capacity =
    ground (arith, ap (λ (c : ℕ). c * token) (again (max 1 capacity) (omega arith)))
  where
    again : (c : ℕ) → 1 ≤ c → max 1 c ≡ c
    again c h = omega arith

create-Holds :
    (key : String) (now rate capacity : ℕ) (r : RateLimiterRegistry)
    → let made = create key (init now (normal_rate rate) (max 1 capacity)) r in
      Holds made.1 key rate capacity made.0
unfolding create
create-Holds key now rate capacity r = (
  init now (normal_rate rate) (max 1 capacity),
  registered-create key _ r,
  differs-init now rate capacity,
)

reuse-Holds :
    (found : Option (ℕ × AsyncTokenBucket)) (key : String) (now rate capacity : ℕ)
    (r : RateLimiterRegistry)
    → registered r key ≡ found
    → let got = reuse found key now (normal_rate rate) (max 1 capacity) r in
      Holds got.1 key rate capacity got.0
unfolding reuse
reuse-Holds none key now rate capacity r e = create-Holds key now rate capacity r
reuse-Holds (some (ref, b)) key now rate capacity r e =
    elim (Bool-cases (differs b (normal_rate rate) (max 1 capacity))) [
      | inl d ↦ rw d (create-Holds key now rate capacity r)
      | inr d ↦ rw d (b, e, d)
    ]

module _ (strip_lower : String → String) (name : String) (rate capacity : ℕ) where
  Holds-get_bucket :
      (other : String) (now ref : ℕ) (r : RateLimiterRegistry)
      → strip_lower other ≡ strip_lower name
      → Holds r (strip_lower name) rate capacity ref
      → get_bucket strip_lower now other rate capacity r ≡ (ref, r)
  unfolding get_bucket
  Holds-get_bucket other now ref r same (b, e, fits) = ground arith

  pub get_bucket-shared :
      (other : String) (now later : ℕ) (r : RateLimiterRegistry)
      → strip_lower other ≡ strip_lower name
      → let got = get_bucket strip_lower now name rate capacity r in
        Holds got.1 (strip_lower name) rate capacity got.0
        × (get_bucket strip_lower later other rate capacity got.1 ≡ got)
  unfolding get_bucket
  get_bucket-shared other now later r same =
      let holds = reuse-Holds (registered r (strip_lower name)) _ now rate capacity r refl in
      (holds, Holds-get_bucket other later _ _ same holds)
