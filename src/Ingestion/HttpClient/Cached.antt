-- ===== src/Ingestion/HttpClient/Cached.antt =====
-- A payload that was fetched is not fetched again while the cache keeps it.
use chainmonitor.Prelude.{
  ℕ, ◌+◌, ◌≤◌, ◌<◌, String, ◌≡◌, refl, sym, ap, ◌∙◌, inl, inr, ◌&&◌, Option, none, some, arith, leb,
  ◌==◌, Bool-cases, if_holds,
}
use mathlib.Core.Path.{subst}
use chainmonitor.Resilience.CircuitBreaker
use chainmonitor.Resilience.Backoff
use chainmonitor.Ingestion.CacheStore
use chainmonitor.Ingestion.CacheStore.{ResponseCacheStore, CacheEntry}
use chainmonitor.Ingestion.CacheStore.Bounds.{get-set}
use chainmonitor.Ingestion.HttpClient.{
  Settings, Reply, World, Result, returned, interrupted, request_json_uncached, after_look_up,
  get_json,
}
use chainmonitor.Ingestion.HttpClient.Outcomes.{Settled, request-settles, request-refused}

module _ {P : Type 0} where
  Keeps : ResponseCacheStore P → ResponseCacheStore P → Type 0
  Keeps c d = (d.ttl_seconds ≡ c.ttl_seconds) × (d.max_entries ≡ c.max_entries)

  get_remote-Keeps :
      (now : ℕ) (remote : Option P) (url : String) (c : ResponseCacheStore P)
      → Keeps c (CacheStore.get_remote now remote url c).1
  unfolding CacheStore.get_remote CacheStore.compact Keeps
  get_remote-Keeps now none url c = (refl, refl)
  get_remote-Keeps now (some payload) url c = (refl, refl)

  get_entry-Keeps :
      (now : ℕ) (remote : Option P) (url : String) (o : Option (CacheEntry P))
      (c : ResponseCacheStore P)
      → Keeps c (CacheStore.get_entry now remote url o c).1
  unfolding CacheStore.get_entry CacheStore.move_to_end
  get_entry-Keeps now remote url none c = get_remote-Keeps now remote url c
  get_entry-Keeps now remote url (some e) c =
      if_holds (λ (r : Option P × ResponseCacheStore P). Keeps c r.1) (leb e.expire_at now)
        (λ _. unfold Keeps in get_remote-Keeps now remote url _) (λ _. unfold Keeps in (refl, refl))

  get-Keeps :
      (now : ℕ) (remote : Option P) (url : String) (c : ResponseCacheStore P)
      → Keeps c (CacheStore.get now remote url c).1
  unfolding CacheStore.get
  get-Keeps now remote url c =
      if_holds (λ (r : Option P × ResponseCacheStore P). Keeps c r.1) (c.ttl_seconds == 0)
        (λ _. unfold Keeps in (refl, refl)) (λ _. get_entry-Keeps now remote url _ c)

module _ {P : Type 0} (settings : Settings) (jitter : ℕ → ℕ) (quotient : ℕ → ℕ → ℕ)
    (server : ℕ → Reply P) where
  Settled-cache :
      (url : String) (w w' : World P) (r : Result P) (payload : P)
      → r ≡ returned (some payload)
      → Settled settings jitter quotient server url w r w'
      → w'.cache ≡ CacheStore.set w'.now url payload w.cache
  Settled-cache url w w' (returned (some p)) payload e h =
      h.2 ∙ ap (λ (x : P). CacheStore.set w'.now url x w.cache) (ground (arith, e))
  Settled-cache url w w' (returned none) payload e h = ground (arith, e)
  Settled-cache url w w' interrupted payload e h = ground (arith, e)

  request_cached :
      (url endpoint : String) (w : World P) (payload : P)
      → 1 ≤ settings.retry_attempts
      → let (r, w') = request_json_uncached settings jitter quotient server url endpoint w in
        r ≡ returned (some payload) → w'.cache ≡ CacheStore.set w'.now url payload w.cache
  request_cached url endpoint w payload some_attempt e =
      elim (Bool-cases (
        Backoff.allow_request w.now w.backoff_guard
        && (CircuitBreaker.allow_request w.now w.breaker).0)) [
          | inl admitted ↦
              Settled-cache url
                (record w { breaker = (CircuitBreaker.allow_request w.now w.breaker).1 }) _ _
                payload e
                (request-settles settings jitter quotient server url endpoint w some_attempt
                  (ground (arith, admitted)) (ground (arith, admitted))).0
          | inr refused ↦ absurd (
              ground (
                arith,
                e,
                (request-refused settings jitter quotient server url endpoint w refused).0,
              ))
        ]

  look_up-missed :
      (url endpoint : String) (o : Option P × ResponseCacheStore P) (w : World P)
      → o.0 ≡ none
      → after_look_up settings jitter quotient server url endpoint o w
        ≡ request_json_uncached settings jitter quotient server url endpoint
            (record w { cache = o.1 })
  unfolding after_look_up
  look_up-missed url endpoint (none, c) w missed = refl
  look_up-missed url endpoint (some p, c) w missed = absurd (ground (arith, missed))

  look_up-found :
      (url endpoint : String) (o : Option P × ResponseCacheStore P) (w : World P) (payload : P)
      → o.0 ≡ some payload
      → after_look_up settings jitter quotient server url endpoint o w
        ≡ (returned (some payload), record w { cache = o.1 })
  unfolding after_look_up
  look_up-found url endpoint (none, c) w payload found = absurd (ground (arith, found))
  look_up-found url endpoint (some p, c) w payload found =
      ap (λ (x : Option P). (returned x, record w { cache = c })) found

  fetched_cache :
      (remote : Option P) (url endpoint : String) (w w' : World P) (payload : P)
      → 1 ≤ settings.retry_attempts
      → (CacheStore.get w.now remote url w.cache).0 ≡ none
      → get_json settings jitter quotient server remote url endpoint w
        ≡ (returned (some payload), w')
      → w'.cache ≡ CacheStore.set w'.now url payload (CacheStore.get w.now remote url w.cache).1
  unfolding get_json
  fetched_cache remote url endpoint w w' payload some_attempt missed got =
      let looked = CacheStore.get w.now remote url w.cache in
      let got' = sym (look_up-missed url endpoint looked w missed) ∙ got in
      let cached =
        request_cached url endpoint (record w { cache = looked.1 }) payload some_attempt
          (ap (λ (x : Result P × World P). x.0) got') in
      subst (λ (x : Result P × World P). x.1.cache ≡ CacheStore.set x.1.now url payload looked.1)
        got' cached

  -- A payload that came from the server is answered from the cache at every later call for its URL,
  -- as long as the cache is as that call left it and the time to live is not over: no request is
  -- sent, and the bucket, the breaker and the guard are not touched, whatever they went through
  -- meanwhile and would say, and whatever Redis has.
  pub get_json_again :
      (remote remote' : Option P) (url endpoint : String) (w w' v : World P) (payload : P)
      → 1 ≤ settings.retry_attempts
      → 1 ≤ w.cache.ttl_seconds
      → 1 ≤ w.cache.max_entries
      → (CacheStore.get w.now remote url w.cache).0 ≡ none
      → get_json settings jitter quotient server remote url endpoint w
        ≡ (returned (some payload), w')
      → v.cache ≡ w'.cache
      → v.now < w'.now + w.cache.ttl_seconds
      → let (r, v') = get_json settings jitter quotient server remote' url endpoint v in
        (r ≡ returned (some payload))
        × (v'.requests ≡ v.requests)
        × (v'.bucket ≡ v.bucket)
        × (v'.breaker ≡ v.breaker)
        × (v'.backoff_guard ≡ v.backoff_guard)
  unfolding get_json
  get_json_again remote remote' url endpoint w w' v payload some_attempt lives room missed got same
        fresh =
      let kept = get-Keeps w.now remote url w.cache in
      let c = (CacheStore.get w.now remote url w.cache).1 in
      let cached = fetched_cache remote url endpoint w w' payload some_attempt missed got in
      let read =
        get-set w'.now v.now remote' url payload c (unfold Keeps in omega (arith, kept))
          (unfold Keeps in omega (arith, kept)) (unfold Keeps in omega (arith, kept)) in
      let found : (CacheStore.get v.now remote' url v.cache).0 ≡ some payload =
        ap (λ (x : ResponseCacheStore P). (CacheStore.get v.now remote' url x).0) (same ∙ cached)
        ∙ read in
      let again =
        look_up-found url endpoint (CacheStore.get v.now remote' url v.cache) v payload found in
      (
        ap (λ (x : Result P × World P). x.0) again,
        ap (λ (x : Result P × World P). x.1.requests) again,
        ap (λ (x : Result P × World P). x.1.bucket) again,
        ap (λ (x : Result P × World P). x.1.breaker) again,
        ap (λ (x : Result P × World P). x.1.backoff_guard) again,
      )
