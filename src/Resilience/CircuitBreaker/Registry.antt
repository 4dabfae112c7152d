-- ===== src/Resilience/CircuitBreaker/Registry.antt =====
-- `CircuitBreakerRegistry`: one shared breaker per name. A breaker is an object that callers hold
-- a reference to, so the model has the objects made so far, and the table holds references.
-- `strip_lower` is `str.strip` and then `str.lower`.
use chainmonitor.Dict.{Dict, get, put, get-put}
use mathlib.Core.List.{append-nil}
use chainmonitor.Prelude.{
  ℕ, ◌+◌, ◌-◌, max, String, ◌≡◌, refl, sym, inl, inr, Bool, true, false, not, ◌||◌, Option, none,
  some, List, [], ◌∷◌, ◌++◌, arith, str_eq, eq_iff, ltb, ◌==◌, if◌then◌else◌, Bool-cases, length,
  get_elem?, get_elem?-append_last,
}
use chainmonitor.Resilience.CircuitBreaker.{AsyncCircuitBreaker, half_second, init}

pub record CircuitBreakerRegistry : Type 0 where
  pub objects : List AsyncCircuitBreaker
  pub breakers : Dict ℕ

abbrev pub empty : CircuitBreakerRegistry
empty = record { objects = []; breakers = [] }

-- abs(a - b), in nanoseconds
abbrev pub distance : ℕ → ℕ → ℕ
distance a b = (a - b) + (b - a)

-- The settings of a breaker are not those asked for; 1e-9 seconds is one nanosecond.
unfoldable pub differs : AsyncCircuitBreaker → ℕ → ℕ → ℕ → Bool
differs b threshold recovery probes =
    not (b.failure_threshold == threshold)
    || ltb 1 (distance b.recovery_seconds recovery)
    || not (b.half_open_max_calls == probes)

-- A new object, entered under its key.
unfoldable pub create :
    String → AsyncCircuitBreaker → CircuitBreakerRegistry → ℕ × CircuitBreakerRegistry
create key breaker r =
    let ref = length r.objects in
    (ref, record { objects = r.objects ++ breaker ∷ []; breakers = put r.breakers key ref })

-- The breaker under the key, if there is one.
unfoldable pub registered : CircuitBreakerRegistry → String → Option (ℕ × AsyncCircuitBreaker)
registered r key = elim (get r.breakers key) [
  | none ↦ none
  | some ref ↦ elim (get_elem? r.objects ref) [ none ↦ none | some b ↦ some (ref, b) ]
]

reuse :
    Option (ℕ × AsyncCircuitBreaker)
    → String
    → ℕ
    → ℕ
    → ℕ
    → CircuitBreakerRegistry
    → ℕ × CircuitBreakerRegistry
reuse none key threshold recovery probes r = create key (init threshold recovery probes) r
reuse (some (ref, b)) key threshold recovery probes r =
    if differs b threshold recovery probes
    then create key (init threshold recovery probes) r
    else (ref, r)

module _ (strip_lower : String → String) where
  unfoldable pub get_breaker :
      String → ℕ → ℕ → ℕ → CircuitBreakerRegistry → ℕ × CircuitBreakerRegistry
  unfolding reuse
  get_breaker name failure_threshold recovery_seconds half_open_max_calls r =
      let key = strip_lower name in
      reuse (registered r key) key (max 1 failure_threshold) (max half_second recovery_seconds)
        (max 1 half_open_max_calls) r

-- A fresh breaker has the settings that it was made with.
differs-init :
    (t w p : ℕ)
    → differs (init (max 1 t) (max half_second w) (max 1 p)) (max 1 t) (max half_second w) (max 1 p)
      ≡ false
unfolding differs init
differs-init t w p = ground arith

registered-create :
    (key : String) (b : AsyncCircuitBreaker) (r : CircuitBreakerRegistry)
    → registered (create key b r).1 key ≡ some (length r.objects, b)
unfolding registered create
registered-create key b r = ground (
  arith,
  get-put r.breakers key key (length r.objects),
  eq_iff key key,
  get_elem?-append_last r.objects b,
)

-- The state of the registry in which a key has a breaker with settings that fit the request.
abbrev pub Holds : CircuitBreakerRegistry → String → ℕ → ℕ → ℕ → ℕ → Type 0
Holds r key t w p ref =
    (b : AsyncCircuitBreaker) × (registered r key ≡ some (ref, b))
    × (differs b (max 1 t) (max half_second w) (max 1 p) ≡ false)

create-Holds :
    (key : String) (t w p : ℕ) (r : CircuitBreakerRegistry)
    → let made = create key (init (max 1 t) (max half_second w) (max 1 p)) r in
      Holds made.1 key t w p made.0
unfolding create
create-Holds key t w p r =
    (init (max 1 t) (max half_second w) (max 1 p), registered-create key _ r, differs-init t w p)

reuse-Holds :
    (found : Option (ℕ × AsyncCircuitBreaker)) (key : String) (t w p : ℕ)
    (r : CircuitBreakerRegistry)
    → registered r key ≡ found
    → let got = reuse found key (max 1 t) (max half_second w) (max 1 p) r in
      Holds got.1 key t w p got.0
unfolding reuse
reuse-Holds none key t w p r e = create-Holds key t w p r
reuse-Holds (some (ref, b)) key t w p r e =
    elim (Bool-cases (differs b (max 1 t) (max half_second w) (max 1 p))) [
      | inl d ↦ rw d (create-Holds key t w p r)
      | inr d ↦ rw d (b, e, d)
    ]

-- The objects that were there are the first ones of the store, and the table has changed at most
-- under the key, where it has the reference that was returned.
abbrev pub Extends : CircuitBreakerRegistry → String → ℕ × CircuitBreakerRegistry → Type 0
Extends r key (ref, after) =
    ((made : List AsyncCircuitBreaker) × (after.objects ≡ r.objects ++ made))
    × ((k : String) → get after.breakers k ≡ (if str_eq key k then some ref else get r.breakers k))

create-Extends :
    (key : String) (b : AsyncCircuitBreaker) (r : CircuitBreakerRegistry)
    → Extends r key (create key b r)
unfolding create
create-Extends key b r = ((b ∷ [], refl), λ k. get-put r.breakers key k (length r.objects))

registered-get :
    (key : String) (ref : ℕ) (b : AsyncCircuitBreaker) (r : CircuitBreakerRegistry)
    → registered r key ≡ some (ref, b)
    → get r.breakers key ≡ some ref
unfolding registered
registered-get key ref b r h = ground arith

reuse-Extends :
    (found : Option (ℕ × AsyncCircuitBreaker)) (key : String) (t w p : ℕ)
    (r : CircuitBreakerRegistry)
    → registered r key ≡ found
    → Extends r key (reuse found key t w p r)
unfolding reuse
reuse-Extends none key t w p r e = create-Extends key _ r
reuse-Extends (some (ref, b)) key t w p r e = elim (Bool-cases (differs b t w p)) [
  | inl d ↦ rw d (create-Extends key _ r)
  | inr d ↦ rw d (
    ([], sym (append-nil r.objects)),
    λ k. ground (arith, eq_iff key k, registered-get key ref b r e),
  )
]

module _ (strip_lower : String → String) (name : String) (t w p : ℕ) where
  get_breaker-Holds :
      (r : CircuitBreakerRegistry)
      → let (ref, after) = get_breaker strip_lower name t w p r in
        Holds after (strip_lower name) t w p ref
  unfolding get_breaker
  get_breaker-Holds r = reuse-Holds (registered r (strip_lower name)) _ t w p r refl

  -- A request that the registry can meet returns the object that it holds, and changes nothing.
  Holds-get_breaker :
      (other : String) (ref : ℕ) (r : CircuitBreakerRegistry)
      → strip_lower other ≡ strip_lower name
      → Holds r (strip_lower name) t w p ref
      → get_breaker strip_lower other t w p r ≡ (ref, r)
  unfolding get_breaker
  Holds-get_breaker other ref r same (b, e, fits) = ground arith

  -- After a call the registry holds, under the name, the object that was returned, with the
  -- settings asked for: the two counts raised to 1 and the time to half a second, where it may be
  -- off by a nanosecond. Asking again, by any spelling of the name that strips and lowers to the
  -- same key, returns the same object and changes nothing.
  pub get_breaker-shared :
      (other : String) (r : CircuitBreakerRegistry)
      → strip_lower other ≡ strip_lower name
      → let got = get_breaker strip_lower name t w p r in
        Holds got.1 (strip_lower name) t w p got.0
        × (get_breaker strip_lower other t w p got.1 ≡ got)
  get_breaker-shared other r same =
      let holds = get_breaker-Holds r in (holds, Holds-get_breaker other _ _ same holds)

  -- No call changes an object that callers already hold, or what is registered under other keys.
  pub get_breaker-Extends :
      (r : CircuitBreakerRegistry)
      → Extends r (strip_lower name) (get_breaker strip_lower name t w p r)
  unfolding get_breaker
  get_breaker-Extends r = reuse-Extends (registered r (strip_lower name)) _ _ _ _ r refl

  -- Asking for other settings than those of the registered breaker replaces it by a new, closed
  -- one with no failures counted, whatever state the old one was in.
  pub get_breaker-reconfigured :
      (ref : ℕ) (b : AsyncCircuitBreaker) (r : CircuitBreakerRegistry)
      → registered r (strip_lower name) ≡ some (ref, b)
      → differs b (max 1 t) (max half_second w) (max 1 p) ≡ true
      → let got = get_breaker strip_lower name t w p r in
        (got.0 ≡ length r.objects) × (get_elem? got.1.objects got.0 ≡ some (init t w p))
  unfolding get_breaker create init
  get_breaker-reconfigured ref b r e d =
      ground (arith, get_elem?-append_last r.objects (init t w p))
