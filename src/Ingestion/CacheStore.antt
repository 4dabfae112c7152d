-- ===== src/Ingestion/CacheStore.antt =====
-- src/ingestion/resilience/cache_store.py: `ResponseCacheStore`.
--
-- The OrderedDict is a `Dict`, oldest entry first. Redis is an argument: whether there is a client,
-- and the payload that it answers with, which is `none` for a missing key, a payload that is no
-- object, a timeout and any exception. Clock readings are whole nanoseconds; one task uses the store
-- at a time.
pub mod Bounds
use chainmonitor.Prelude.{
  ℕ, zero, suc, ◌+◌, ◌-◌, ◌/◌, max, String, Option, none, some, [], ◌∷◌, ◌++◌, leb, ◌==◌,
  if◌then◌else◌, length,
}
use chainmonitor.Dict
use chainmonitor.Dict.{Dict}

pub record CacheEntry (P : Type 0) : Type 0 where
  pub expire_at : ℕ
  pub payload : P

pub record ResponseCacheStore (P : Type 0) : Type 0 where
  pub ttl_seconds : ℕ
  pub max_entries : ℕ
  pub response_cache : Dict (CacheEntry P)

module _ {P : Type 0} where
  unfoldable pub init : ℕ → ℕ → ResponseCacheStore P
  init ttl_seconds max_entries = record {
    ttl_seconds = ttl_seconds;
    max_entries = max 1 max_entries;
    response_cache = [];
  }

  -- `popitem(last=False)`, so often
  unfoldable pub drop : ℕ → Dict (CacheEntry P) → Dict (CacheEntry P)
  drop zero d = d
  drop (suc n) [] = []
  drop (suc n) (e ∷ d) = drop n d

  unfoldable pub compact : ResponseCacheStore P → ResponseCacheStore P
  compact c = record c {
    response_cache = drop (length c.response_cache - c.max_entries) c.response_cache;
  }

  -- `pop(url, None)` and an assignment: the entry goes to the end.
  unfoldable pub move_to_end : String → CacheEntry P → ResponseCacheStore P → ResponseCacheStore P
  move_to_end url entry c = record c {
    response_cache = Dict.remove c.response_cache url ++ (url, entry) ∷ [];
  }

  -- The part of `get` that asks Redis.
  unfoldable pub get_remote :
      ℕ → Option P → String → ResponseCacheStore P → Option P × ResponseCacheStore P
  unfolding compact
  get_remote now none url c = (none, c)
  get_remote now (some payload) url c = (
    some payload,
    compact (record c {
      response_cache =
          Dict.put c.response_cache url
            (record { expire_at = now + c.ttl_seconds; payload = payload });
    }),
  )

  unfoldable pub get_entry :
      ℕ
      → Option P
      → String
      → Option (CacheEntry P)
      → ResponseCacheStore P
      → Option P × ResponseCacheStore P
  unfolding get_remote move_to_end
  get_entry now remote url none c = get_remote now remote url c
  get_entry now remote url (some entry) c =
      if leb entry.expire_at now
      then get_remote now remote url
          (record c { response_cache = Dict.remove c.response_cache url })
      else (some entry.payload, move_to_end url entry c)

  unfoldable pub get :
      ℕ → Option P → String → ResponseCacheStore P → Option P × ResponseCacheStore P
  unfolding get_entry
  get now remote url c =
      if c.ttl_seconds == 0
      then (none, c)
      else get_entry now remote url (Dict.get c.response_cache url) c

  unfoldable pub set : ℕ → String → P → ResponseCacheStore P → ResponseCacheStore P
  unfolding move_to_end compact
  set now url payload c =
      if c.ttl_seconds == 0
      then c
      else compact
          (move_to_end url (record { expire_at = now + c.ttl_seconds; payload = payload }) c)
