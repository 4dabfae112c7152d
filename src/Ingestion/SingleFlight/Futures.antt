-- ===== src/Ingestion/SingleFlight/Futures.antt =====
-- What sets a future.
use chainmonitor.Prelude.{
  ℕ, zero, suc, ◌+◌, String, ◌≡◌, refl, ◌≢◌, inl, inr, true, false, Option, none, some, List, [],
  ◌∷◌, ◌++◌, arith, ◌==◌, if◌then◌else◌, Bool-cases, length, get_elem?, get_elem?-set_self,
  get_elem?-set_ne, length-set,
}
use chainmonitor.Dict
use chainmonitor.Dict.{Dict, get-put, get-remove}
use chainmonitor.Ingestion.SingleFlight.{SingleFlightGroup, release, is_pending, set_result}

module _ {R : Type 0} where
  pub future-set_result :
      (h : ℕ) (r : R) (g : SingleFlightGroup R)
      → get_elem? g.futures h ≡ some none
      → get_elem? (set_result h r g).futures h ≡ some (some r)
  unfolding set_result is_pending
  future-set_result h r g pending =
      rw (pending, set_result, is_pending) (get_elem?-set_self g.futures h (some r) none pending)

  pub set_result-done :
      (h : ℕ) (r x : R) (g : SingleFlightGroup R)
      → get_elem? g.futures h ≡ some (some x)
      → set_result h r g ≡ g
  unfolding set_result is_pending
  set_result-done h r x g done = ground (arith, done)

  pub length-set_result :
      (h : ℕ) (r : R) (g : SingleFlightGroup R)
      → length (set_result h r g).futures ≡ length g.futures
  unfolding set_result
  length-set_result h r g = ground (arith, length-set g.futures h (some r))

  pub pending-eq : (o : Option (Option R)) → is_pending o ≡ true → o ≡ some none
  unfolding is_pending
  pending-eq none h = ground arith
  pending-eq (some none) h = refl
  pending-eq (some (some r)) h = ground arith

  pub pending-set_self :
      (h : ℕ) (r : R) (g : SingleFlightGroup R)
      → is_pending (get_elem? (set_result h r g).futures h) ≡ false
  unfolding set_result
  pending-set_self h r g = elim (Bool-cases (is_pending (get_elem? g.futures h))) [
    | inl pending ↦
        rw
          (pending, set_result, get_elem?-set_self g.futures h (some r) none (pending-eq _ pending))
          (unfold is_pending in refl)
    | inr done ↦ rw (done, set_result, done)
  ]

  pub pending-set_ne :
      (h h' : ℕ) (r : R) (g : SingleFlightGroup R)
      → h ≢ h'
      → get_elem? (set_result h r g).futures h' ≡ get_elem? g.futures h'
  unfolding set_result
  pending-set_ne h h' r g other = ground (arith, get_elem?-set_ne g.futures h h' (some r) other)

  pub kept_set :
      (h : ℕ) (r : R) (g : SingleFlightGroup R) (key : String) (n : ℕ)
      → Dict.get (set_result h r g).inflight_requests key ≡ some n
      → Dict.get g.inflight_requests key ≡ some n
  unfolding set_result
  kept_set h r g key n e = ground (arith, e)

  pub kept_release :
      (k : String) (h : ℕ) (g : SingleFlightGroup R) (key : String) (n : ℕ)
      → Dict.get (release k h g).inflight_requests key ≡ some n
      → Dict.get g.inflight_requests key ≡ some n
  unfolding release
  kept_release k h g key n e = ground (arith, e, get-remove g.inflight_requests k key)

  pub futures-release :
      (k : String) (h : ℕ) (g : SingleFlightGroup R) → (release k h g).futures ≡ g.futures
  unfolding release
  futures-release k h g = ground arith

  pub pending-append :
      (xs : List (Option R)) (h : ℕ)
      → (if is_pending (get_elem? (xs ++ none ∷ []) h) then 1 else 0)
        ≡ (if is_pending (get_elem? xs h) then 1 else 0) + (if length xs == h then 1 else 0)
  unfolding is_pending
  pending-append [] zero = omega arith
  pending-append [] (suc h) = ground arith
  pending-append (x ∷ xs) zero = ground arith
  pending-append (x ∷ xs) (suc h) = ground (arith, pending-append xs h)
