-- ===== src/Ingestion/SingleFlight/Spreads.antt =====
-- What cancelling one task that waits does to the others.
use chainmonitor.Prelude.{
  ℕ, zero, suc, String, ◌≡◌, refl, sym, ap, ◌∙◌, ◌≢◌, ◌⊎◌, inl, inr, Option, none, some, List, [],
  ◌∷◌, ◌++◌, arith, Option-cases, get_elem?, set, get_elem?-set_self, get_elem?-set_ne,
}
use chainmonitor.Dict
use mathlib.Core.Path.{subst}
use native.Mathlib.Decide.{ℕ_discrete}
use chainmonitor.Ingestion.SingleFlight.{
  SingleFlightGroup, Task, leading, settled, waiting, ended, System, acquire, set_result, join,
  settle, finish, wake, cancel, Step, joins, settles, finishes, wakes, cancels, Reach, here, next,
}
use chainmonitor.Ingestion.SingleFlight.Futures.{
  future-set_result, set_result-done, pending-set_ne, futures-release,
}

get_elem?-append :
    {A : Type 0} (xs ys : List A) (i : ℕ) (v : A)
    → get_elem? xs i ≡ some v
    → get_elem? (xs ++ ys) i ≡ some v
get_elem?-append [] ys i v h = absurd (ground (arith, h))
get_elem?-append (x ∷ xs) ys zero v h = h
get_elem?-append (x ∷ xs) ys (suc i) v h = get_elem?-append xs ys i v h

module _ {R : Type 0} (cancelled : R) (j holder : ℕ) where
  -- What is found at a task that waits for the future, or was cancelled.
  Stays : Option (Task R) → Type 0
  Stays o = (o ≡ some (waiting holder)) ⊎ (o ≡ some (ended cancelled))

  -- The future is cancelled, and so will be the task that waits for it.
  Spread : System R → Type 0
  Spread s =
      (get_elem? s.group.futures holder ≡ some (some cancelled)) × Stays (get_elem? s.tasks j)

  Stays-append : (ts us : List (Task R)) → Stays (get_elem? ts j) → Stays (get_elem? (ts ++ us) j)
  unfolding Stays
  Stays-append ts us (inl h) = inl (get_elem?-append ts us j _ h)
  Stays-append ts us (inr h) = inr (get_elem?-append ts us j _ h)

  Stays-set :
      (ts : List (Task R)) (i : ℕ) (a b : Task R)
      → get_elem? ts i ≡ some a
      → (i ≡ j → Stays (some b))
      → Stays (get_elem? ts j)
      → Stays (get_elem? (set ts i b) j)
  Stays-set ts i a b at same h = elim (ℕ_discrete i j) [
    | yes e ↦
        subst Stays
          (sym (ap (λ n. get_elem? (set ts i b) n) (sym e) ∙ get_elem?-set_self ts i b a at))
          (same e)
    | no other ↦ subst Stays (sym (get_elem?-set_ne ts i j b other)) h
  ]

  -- The tasks that lead or have set a future are others.
  Stays-busy :
      (ts : List (Task R)) (i : ℕ) (a : Task R)
      → get_elem? ts i ≡ some a
      → Stays (get_elem? ts j)
      → i ≡ j
      → Stays (some a)
  Stays-busy ts i a at h e = subst Stays (ap (λ n. get_elem? ts n) (sym e) ∙ at) h

  futures-set_result :
      (h : ℕ) (r : R) (g : SingleFlightGroup R)
      → get_elem? g.futures holder ≡ some (some cancelled)
      → get_elem? (set_result h r g).futures holder ≡ some (some cancelled)
  futures-set_result h r g done = elim (ℕ_discrete h holder) [
    | yes e ↦
        ap (λ (x : SingleFlightGroup R). get_elem? x.futures holder)
          (set_result-done h r cancelled g (ap (λ n. get_elem? g.futures n) e ∙ done))
        ∙ done
    | no other ↦ pending-set_ne h holder r g other ∙ done
  ]

  join-Spread : (key : String) (s : System R) → Spread s → Spread (join key s)
  unfolding join acquire Spread
  join-Spread key s (done, stays) = elim (Option-cases (Dict.get s.group.inflight_requests key)) [
    | inl fresh ↦
        rw (fresh, acquire)
          (get_elem?-append s.group.futures (none ∷ []) holder _ done, Stays-append s.tasks _ stays)
    | inr (h, found) ↦ rw (found, acquire) (done, Stays-append s.tasks _ stays)
  ]

  not_leading : (key : String) (h : ℕ) (b : Task R) → Stays (some (leading key h)) → Stays (some b)
  unfolding Stays
  not_leading key h b (inl e) = absurd (ground (arith, e))
  not_leading key h b (inr e) = absurd (ground (arith, e))

  not_settled :
      (key : String) (h : ℕ) (r : R) (b : Task R) → Stays (some (settled key h r)) → Stays (some b)
  unfolding Stays
  not_settled key h r b (inl e) = absurd (ground (arith, e))
  not_settled key h r b (inr e) = absurd (ground (arith, e))

  woken :
      (h : ℕ) (r : R) (g : SingleFlightGroup R)
      → get_elem? g.futures h ≡ some (some r)
      → get_elem? g.futures holder ≡ some (some cancelled)
      → Stays (some (waiting h))
      → Stays (some (ended r))
  unfolding Stays
  woken h r g set done (inl e) =
      let same : h ≡ holder = ground (arith, e) in
      let brought : some (some r) ≡ some (some cancelled) =
        sym set ∙ (ap (λ n. get_elem? g.futures n) same ∙ done) in
      inr (ground (arith, brought))
  woken h r g set done (inr e) = absurd (ground (arith, e))

  Step-Spread : (s t : System R) → Step cancelled s t → Spread s → Spread t
  unfolding Spread
  Step-Spread s t (joins key e) v = subst Spread (sym e) (unfold Spread in join-Spread key s v)
  Step-Spread s t (settles i key h r at e) (done, stays) = subst Spread (sym e) (
      unfold settle in
      (
        futures-set_result h r s.group done,
        Stays-set s.tasks i _ _ at
            (λ same. not_leading key h _ (Stays-busy s.tasks i _ at stays same)) stays,
      ))
  Step-Spread s t (finishes i key h r at e) (done, stays) = subst Spread (sym e) (
      unfold finish in
      (
        ap (λ fs. get_elem? fs holder) (futures-release key h s.group) ∙ done,
        Stays-set s.tasks i _ _ at
            (λ same. not_settled key h r _ (Stays-busy s.tasks i _ at stays same)) stays,
      ))
  Step-Spread s t (wakes i h r at set e) (done, stays) = subst Spread (sym e) (
      unfold wake in
      (
        done,
        Stays-set s.tasks i _ _ at
            (λ same. woken h r s.group set done (Stays-busy s.tasks i _ at stays same)) stays,
      ))
  Step-Spread s t (cancels i h at e) (done, stays) = subst Spread (sym e) (
      unfold cancel in
      (
        futures-set_result h cancelled s.group done,
        Stays-set s.tasks i _ _ at (λ same. unfold Stays in inr refl) stays,
      ))

  Reach-Spread : (s u : System R) → Reach cancelled s u → Spread s → Spread u
  Reach-Spread s u here v = v
  Reach-Spread s u (next {t} reach step) v = Step-Spread t u step (Reach-Spread s t reach v)

  -- Where a waiting task's future is pending, cancelling the task cancels the future, for good: in
  -- every state that is reached from then on the future is cancelled, whatever the request's leader
  -- brings, and every other task that waited for it still waits or has ended cancelled.
  pub cancel_spreads :
      (i : ℕ) (s u : System R)
      → get_elem? s.tasks i ≡ some (waiting holder)
      → get_elem? s.tasks j ≡ some (waiting holder)
      → i ≢ j
      → get_elem? s.group.futures holder ≡ some none
      → Reach cancelled (cancel cancelled i holder s) u
      → (get_elem? u.group.futures holder ≡ some (some cancelled))
        × ((get_elem? u.tasks j ≡ some (waiting holder))
            ⊎ (get_elem? u.tasks j ≡ some (ended cancelled)))
  unfolding cancel Spread Stays
  cancel_spreads i s u at_i at_j other pending reach =
      Reach-Spread (cancel cancelled i holder s) u reach (
        future-set_result holder cancelled s.group pending,
        inl (get_elem?-set_ne s.tasks i j (ended cancelled) other ∙ at_j),
      )
