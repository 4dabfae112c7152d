-- ===== src/Examples/Caching.antt =====
-- The response cache at concrete calls.
use chainmonitor.Prelude.{ℕ, ◌≡◌, none, some, List, [], ◌∷◌, arith}
use chainmonitor.Ingestion.CacheStore.{ResponseCacheStore, get, set}
use chainmonitor.Ingestion.CacheStore.Bounds.{Call, gets, sets, get-set}

abbrev calls : List (Call ℕ)
calls = sets 1 "a" 7 ∷ sets 2 "b" 8 ∷ gets 3 (some 9) "c" ∷ gets 4 none "a" ∷ []

abbrev full : ResponseCacheStore ℕ
full = record {
  ttl_seconds = 100;
  max_entries = 1;
  response_cache = ("a", record { expire_at = 50; payload = 7 }) ∷ [];
}

get-set_example : (get 60 none "b" (set 10 "b" 8 full)).0 ≡ some 8
get-set_example = get-set 10 60 none "b" 8 full (omega arith) (omega arith) (omega arith)
