-- ===== src/Ingestion/CacheStore/Bounds.antt =====
-- The size of the cache, and what it gives back.
use chainmonitor.Prelude.{
  ℕ, zero, suc, ◌+◌, ◌-◌, ◌≤◌, ◌<◌, String, ◌≡◌, refl, sym, ◌∙◌, Option, none, some, List, [], ◌∷◌,
  ◌++◌, arith, eq_iff, leb, ◌==◌, length, length-append, if_holds,
}
use mathlib.Core.Path.{subst}
use chainmonitor.Dict
use chainmonitor.Dict.{Dict, get-remove}
use chainmonitor.Ingestion.CacheStore.{
  CacheEntry, ResponseCacheStore, init, drop, compact, move_to_end, get_remote, get_entry, get, set,
}

-- What callers do: a read with the answer that Redis would give, and a write.
pub data Call (P : Type 0) : Type 0 where
  gets : ℕ → Option P → String → Call P
  sets : ℕ → String → P → Call P

module _ {P : Type 0} where
  unfoldable pub step : Call P → ResponseCacheStore P → ResponseCacheStore P
  step (gets now remote url) c = (get now remote url c).1
  step (sets now url payload) c = set now url payload c

  unfoldable pub run : List (Call P) → ResponseCacheStore P → ResponseCacheStore P
  run [] c = c
  run (x ∷ xs) c = run xs (step x c)

  length-drop : (n : ℕ) (d : Dict (CacheEntry P)) → length (drop n d) ≡ length d - n
  unfolding drop
  length-drop zero d = omega arith
  length-drop (suc n) [] = omega arith
  length-drop (suc n) (e ∷ d) = length-drop n d ∙ omega arith

  length-remove : (d : Dict (CacheEntry P)) (url : String) → length (Dict.remove d url) ≤ length d
  unfolding Dict.remove
  length-remove [] url = omega arith
  length-remove ((j, e) ∷ d) url = ground (arith, length-remove d url)

  -- Removing a key that is there makes the dict shorter.
  remove-found :
      (d : Dict (CacheEntry P)) (url : String) (e : CacheEntry P)
      → Dict.get d url ≡ some e
      → length (Dict.remove d url) < length d
  unfolding Dict.get Dict.remove
  remove-found [] url e h = ground arith
  remove-found ((j, x) ∷ d) url e h = ground (arith, length-remove d url, remove-found d url e)

  compact-le : (c : ResponseCacheStore P) → length (compact c).response_cache ≤ c.max_entries
  unfolding compact
  compact-le c =
      ground (arith, length-drop (length c.response_cache - c.max_entries) c.response_cache)

  IsBounded : ResponseCacheStore P → Type 0
  IsBounded c = length c.response_cache ≤ c.max_entries

  remove-IsBounded :
      (url : String) (c : ResponseCacheStore P)
      → IsBounded c
      → IsBounded (record c { response_cache = Dict.remove c.response_cache url })
  unfolding IsBounded
  remove-IsBounded url c h = ground (arith, length-remove c.response_cache url)

  move_to_end-IsBounded :
      (url : String) (e : CacheEntry P) (c : ResponseCacheStore P)
      → Dict.get c.response_cache url ≡ some e
      → IsBounded c
      → IsBounded (move_to_end url e c)
  unfolding IsBounded move_to_end
  move_to_end-IsBounded url e c found h = ground (
    arith,
    remove-found c.response_cache url e,
    length-append (Dict.remove c.response_cache url) ((url, e) ∷ []),
  )

  get_remote-IsBounded :
      (now : ℕ) (remote : Option P) (url : String) (c : ResponseCacheStore P)
      → IsBounded c
      → IsBounded (get_remote now remote url c).1
  unfolding get_remote IsBounded
  get_remote-IsBounded now none url c h = h
  get_remote-IsBounded now (some payload) url c h = compact-le (record c {
    response_cache =
        Dict.put c.response_cache url
          (record { expire_at = now + c.ttl_seconds; payload = payload });
  })

  get_entry-IsBounded :
      (now : ℕ) (remote : Option P) (url : String) (o : Option (CacheEntry P))
      (c : ResponseCacheStore P)
      → Dict.get c.response_cache url ≡ o
      → IsBounded c
      → IsBounded (get_entry now remote url o c).1
  unfolding get_entry
  get_entry-IsBounded now remote url none c found h = get_remote-IsBounded now remote url c h
  get_entry-IsBounded now remote url (some e) c found h =
      if_holds (λ (r : Option P × ResponseCacheStore P). IsBounded r.1) (leb e.expire_at now)
        (λ _.
          get_remote-IsBounded now remote url
            (record c { response_cache = Dict.remove c.response_cache url })
            (remove-IsBounded url c h))
        (λ _. move_to_end-IsBounded url e c found h)

  step-IsBounded : (x : Call P) (c : ResponseCacheStore P) → IsBounded c → IsBounded (step x c)
  unfolding step get set
  step-IsBounded (gets now remote url) c h =
      if_holds (λ (r : Option P × ResponseCacheStore P). IsBounded r.1) (c.ttl_seconds == 0)
        (λ _. h) (λ _. get_entry-IsBounded now remote url (Dict.get c.response_cache url) c refl h)
  step-IsBounded (sets now url payload) c h =
      if_holds IsBounded (c.ttl_seconds == 0) (λ _. h)
        (λ _.
          unfold IsBounded in
          compact-le
            (move_to_end url (record { expire_at = now + c.ttl_seconds; payload = payload }) c))

  run-IsBounded :
      (xs : List (Call P)) (c : ResponseCacheStore P) → IsBounded c → IsBounded (run xs c)
  unfolding run
  run-IsBounded [] c h = h
  run-IsBounded (x ∷ xs) c h = run-IsBounded xs (step x c) (step-IsBounded x c h)

  -- After any reads and writes, whatever Redis answers, a store that started empty has at most as
  -- many entries as its limit.
  pub run-init-bounded :
      (xs : List (Call P)) (ttl_seconds max_entries : ℕ)
      → length (run xs (init ttl_seconds max_entries)).response_cache
        ≤ (run xs (init ttl_seconds max_entries)).max_entries
  unfolding IsBounded init
  run-init-bounded xs ttl_seconds max_entries =
      run-IsBounded xs (init ttl_seconds max_entries) (omega arith)

  get-drop-last :
      (n : ℕ) (d : Dict (CacheEntry P)) (url : String) (e : CacheEntry P)
      → n ≤ length d
      → Dict.get d url ≡ none
      → Dict.get (drop n (d ++ (url, e) ∷ [])) url ≡ some e
  unfolding Dict.get drop
  get-drop-last zero [] url e h absent = ground (arith, eq_iff url url)
  get-drop-last zero ((j, x) ∷ d) url e h absent = ground (arith, get-drop-last zero d url e)
  get-drop-last (suc n) [] url e h absent = absurd (omega arith)
  get-drop-last (suc n) ((j, x) ∷ d) url e h absent = ground (arith, get-drop-last n d url e)

  get-remove_same :
      (d : Dict (CacheEntry P)) (url : String) → Dict.get (Dict.remove d url) url ≡ none
  get-remove_same d url = ground (arith, get-remove d url url, eq_iff url url)

  get-set_lem :
      (now : ℕ) (url : String) (payload : P) (c : ResponseCacheStore P)
      → 1 ≤ c.max_entries
      → 1 ≤ c.ttl_seconds
      → Dict.get (set now url payload c).response_cache url
        ≡ some (record { expire_at = now + c.ttl_seconds; payload = payload })
  unfolding set compact move_to_end
  get-set_lem now url payload c room lives =
      let entry : CacheEntry P = record { expire_at = now + c.ttl_seconds; payload = payload } in
      let rest = Dict.remove c.response_cache url in
      let appended = length-append rest ((url, entry) ∷ []) in
      if_holds (λ (x : ResponseCacheStore P). Dict.get x.response_cache url ≡ some entry)
        (c.ttl_seconds == 0) (λ off. absurd (ground arith))
        (λ on.
          get-drop-last (length (rest ++ (url, entry) ∷ []) - c.max_entries) rest url entry
            (omega (arith, appended)) (get-remove_same c.response_cache url))

  set-ttl_seconds :
      (now : ℕ) (url : String) (payload : P) (c : ResponseCacheStore P)
      → (set now url payload c).ttl_seconds ≡ c.ttl_seconds
  unfolding set compact move_to_end
  set-ttl_seconds now url payload c =
      if_holds (λ (x : ResponseCacheStore P). x.ttl_seconds ≡ c.ttl_seconds) (c.ttl_seconds == 0)
        (λ _. refl) (λ _. refl)

  get-fresh :
      (now : ℕ) (remote : Option P) (url : String) (e : CacheEntry P) (c : ResponseCacheStore P)
      → 1 ≤ c.ttl_seconds
      → Dict.get c.response_cache url ≡ some e
      → now < e.expire_at
      → (get now remote url c).0 ≡ some e.payload
  unfolding get get_entry
  get-fresh now remote url e c lives found fresh =
      if_holds (λ (r : Option P × ResponseCacheStore P). r.0 ≡ some e.payload) (c.ttl_seconds == 0)
        (λ off. absurd (ground arith))
        (λ on.
          subst (λ (o : Option (CacheEntry P)). (get_entry now remote url o c).0 ≡ some e.payload)
            (sym found) (ground arith))

  -- In a store that keeps entries for some time and has room for one, what was written under a URL
  -- is read back until it expires, however full the store was and whatever Redis would answer: the
  -- write does not evict its own entry.
  pub get-set :
      (now later : ℕ) (remote : Option P) (url : String) (payload : P) (c : ResponseCacheStore P)
      → 1 ≤ c.max_entries
      → later < now + c.ttl_seconds
      → 1 ≤ c.ttl_seconds
      → (get later remote url (set now url payload c)).0 ≡ some payload
  get-set now later remote url payload c room fresh lives =
      get-fresh later remote url (record { expire_at = now + c.ttl_seconds; payload = payload })
        (set now url payload c) (omega (arith, set-ttl_seconds now url payload c))
        (get-set_lem now url payload c room lives) fresh
