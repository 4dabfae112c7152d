-- ===== src/Ingestion/SingleFlight/Waiters.antt =====
-- What the tasks that wait for a leader get.
use chainmonitor.Prelude.{
  ℕ, zero, suc, ◌+◌, ◌≤◌, ◌<◌, String, ◌≡◌, refl, sym, ap, ◌≢◌, ◌⊎◌, inl, inr, false, Option, none,
  some, List, [], ◌∷◌, ◌++◌, arith, ◌==◌, if◌then◌else◌, Option-cases, length, get_elem?, set,
  length-append, get_elem?-set_cases, get_elem?-append_cases,
}
use chainmonitor.Ingestion.SingleFlight.Futures.{
  length-set_result, pending-set_self, pending-set_ne, kept_set, kept_release, futures-release,
  pending-append,
}
use mathlib.Core.Path.{subst}
use native.Mathlib.Decide.{ℕ_discrete}
use chainmonitor.Dict
use chainmonitor.Dict.{Dict, get-put, get-remove}
use chainmonitor.Ingestion.SingleFlight.{
  SingleFlightGroup, Task, leading, settled, waiting, ended, System, init, acquire, release,
  is_pending, set_result, join, settle, finish, wake, cancel, Step, joins, settles, finishes, wakes,
  cancels, Reach, here, next,
}
use chainmonitor.Ingestion.SingleFlight.Weights.{total, total-append, total-set}

module _ {R : Type 0} where
  -- Whether a task is still to set the future.
  unfoldable pub makes : ℕ → Task R → ℕ
  makes holder (leading k h) = if h == holder then 1 else 0
  makes holder (settled k h r) = 0
  makes holder (waiting h) = 0
  makes holder (ended r) = 0

  -- The futures that the table and the tasks name are there, and a task is still to set each that is
  -- pending.
  record IsServed (s : System R) : Type 0 where
    entries :
        (key : String) (h : ℕ)
        → Dict.get s.group.inflight_requests key ≡ some h
        → h < length s.group.futures
    waits : (i h : ℕ) → get_elem? s.tasks i ≡ some (waiting h) → h < length s.group.futures
    made :
        (h : ℕ)
        → (if is_pending (get_elem? s.group.futures h) then 1 else 0) ≤ total (makes h) s.tasks

  join_waits :
      (k : String) (h' : ℕ) (s : System R)
      → Dict.get s.group.inflight_requests k ≡ some h'
      → IsServed s
      → IsServed (record { group = s.group; tasks = s.tasks ++ waiting h' ∷ [] })
  unfolding makes total
  join_waits k h' s found v = record {
    entries = v.entries;
    waits = λ i h e. elim (get_elem?-append_cases s.tasks i (waiting h') (waiting h) e) [
      | inl old ↦ v.waits i h old
      | inr new ↦ ground (arith, new, v.entries k h' found)
    ];
    made = λ h. omega (arith, v.made h, total-append (makes h) s.tasks (waiting h' ∷ []));
  }

  join_leads :
      (k : String) (s : System R)
      → IsServed s
      → IsServed (record {
        group = record {
          inflight_requests = Dict.put s.group.inflight_requests k (length s.group.futures);
          futures = s.group.futures ++ none ∷ [];
        };
        tasks = s.tasks ++ leading k (length s.group.futures) ∷ [];
      })
  unfolding makes total
  join_leads k s v =
      let n = length s.group.futures in
      let longer = length-append s.group.futures (none ∷ []) in
      record {
        entries = λ key h e.
            ground (arith, longer, get-put s.group.inflight_requests k key n, v.entries key h);
        waits = λ i h e. elim (get_elem?-append_cases s.tasks i (leading k n) (waiting h) e) [
          | inl old ↦ omega (arith, longer, v.waits i h old)
          | inr new ↦ ground (arith, new)
        ];
        made = λ h. ground (
          arith,
          v.made h,
          total-append (makes h) s.tasks (leading k n ∷ []),
          pending-append s.group.futures h,
        );
      }

  join-IsServed : (k : String) (s : System R) → IsServed s → IsServed (join k s)
  unfolding join acquire
  join-IsServed k s v = elim (Option-cases (Dict.get s.group.inflight_requests k)) [
    | inl free ↦ rw (free, join, acquire) (join_leads k s v)
    | inr (h, found) ↦ rw (found, join, acquire) (join_waits k h s found v)
  ]

  -- Task i goes on, and the futures go on to g.
  go_on :
      (s : System R) (i : ℕ) (a b : Task R) (g : SingleFlightGroup R)
      → get_elem? s.tasks i ≡ some a
      → ((h : ℕ) → b ≡ waiting h → ⊥)
      → ((key : String) (h : ℕ)
          → Dict.get g.inflight_requests key ≡ some h
          → Dict.get s.group.inflight_requests key ≡ some h)
      → length g.futures ≡ length s.group.futures
      → ((h : ℕ)
          → (is_pending (get_elem? g.futures h) ≡ false)
            ⊎ ((if is_pending (get_elem? g.futures h) then 1 else 0) + makes h a
                ≤ (if is_pending (get_elem? s.group.futures h) then 1 else 0) + makes h b))
      → IsServed s
      → IsServed (record { group = g; tasks = set s.tasks i b })
  go_on s i a b g at quiet kept long less v = record {
    entries = λ key h e. omega (arith, long, v.entries key h (kept key h e));
    waits = λ j h e. elim (get_elem?-set_cases s.tasks i j b (waiting h) e) [
      | inl old ↦ omega (arith, long, v.waits j h old)
      | inr new ↦ absurd (quiet h new)
    ];
    made = λ h. elim (less h) [
      | inl done ↦ ground (arith, done)
      | inr more ↦ omega (arith, more, v.made h, total-set (makes h) s.tasks i a b at)
    ];
  }

  -- A future that is set, whoever sets it, is done, and the others are as before.
  set_less :
      (h : ℕ) (r : R) (g : SingleFlightGroup R) (a b : Task R)
      → ((h' : ℕ) → h ≢ h' → makes h' a ≡ makes h' b)
      → (h' : ℕ)
      → (is_pending (get_elem? (set_result h r g).futures h') ≡ false)
        ⊎ ((if is_pending (get_elem? (set_result h r g).futures h') then 1 else 0) + makes h' a
            ≤ (if is_pending (get_elem? g.futures h') then 1 else 0) + makes h' b)
  set_less h r g a b same h' = elim (ℕ_discrete h h') [
    | yes e ↦ inl (
        subst (λ n. is_pending (get_elem? (set_result h r g).futures n) ≡ false) e
          (pending-set_self h r g))
    | no other ↦ inr (rw (pending-set_ne h h' r g other) (omega (arith, same h' other)))
  ]

  Step-IsServed : (c : R) (s t : System R) → Step c s t → IsServed s → IsServed t
  unfolding makes
  Step-IsServed c s t (joins k e) v = subst IsServed (sym e) (join-IsServed k s v)
  Step-IsServed c s t (settles i k h r at e) v = subst IsServed (sym e) (
      unfold settle in
      go_on s i (leading k h) (settled k h r) (set_result h r s.group) at (λ n w. ground (arith, w))
        (kept_set h r s.group) (length-set_result h r s.group)
        (set_less h r s.group (leading k h) (settled k h r) (λ n other. ground (arith, other))) v)
  Step-IsServed c s t (finishes i k h r at e) v = subst IsServed (sym e) (
      unfold finish in
      go_on s i (settled k h r) (ended r) (release k h s.group) at (λ n w. ground (arith, w))
        (kept_release k h s.group) (ap length (futures-release k h s.group))
        (λ n. inr (rw (futures-release k h s.group) (omega arith))) v)
  Step-IsServed c s t (wakes i h r at done e) v = subst IsServed (sym e) (
      unfold wake in
      go_on s i (waiting h) (ended r) s.group at (λ n w. ground (arith, w)) (λ key n e. e) refl
        (λ n. inr (omega arith)) v)
  Step-IsServed c s t (cancels i h at e) v = subst IsServed (sym e) (
      unfold cancel in
      go_on s i (waiting h) (ended c) (set_result h c s.group) at (λ n w. ground (arith, w))
        (kept_set h c s.group) (length-set_result h c s.group)
        (set_less h c s.group (waiting h) (ended c) (λ n other. refl)) v)

  exists-total :
      (h : ℕ) (ts : List (Task R))
      → 1 ≤ total (makes h) ts
      → (j : ℕ) × (k : String) × (get_elem? ts j ≡ some (leading k h))
  unfolding total makes
  exists-total h [] some_one = absurd (omega arith)
  exists-total h (leading k g ∷ ts) some_one = elim (ℕ_discrete g h) [
    | yes same ↦ (0, k, ap (λ (n : ℕ). some (leading k n)) same)
    | no other ↦ let (j, k', at) = exists-total h ts (ground arith) in (suc j, k', at)
  ]
  exists-total h (settled k g r ∷ ts) some_one =
      let (j, k', at) = exists-total h ts (omega arith) in (suc j, k', at)
  exists-total h (waiting g ∷ ts) some_one =
      let (j, k', at) = exists-total h ts (omega arith) in (suc j, k', at)
  exists-total h (ended r ∷ ts) some_one =
      let (j, k', at) = exists-total h ts (omega arith) in (suc j, k', at)

get_elem?-below : {A : Type 0} (xs : List A) (i : ℕ) → i < length xs → get_elem? xs i ≡ none → ⊥
get_elem?-below [] i h e = omega arith
get_elem?-below (x ∷ xs) zero h e = ground (arith, e)
get_elem?-below (x ∷ xs) (suc i) h e = get_elem?-below xs i (omega arith) e

served :
    {R : Type 0} (s : System R) (h : ℕ) (o : Option (Option R))
    → get_elem? s.group.futures h ≡ o
    → h < length s.group.futures
    → (if is_pending o then 1 else 0) ≤ total (makes h) s.tasks
    → ((r : R) × (o ≡ some (some r)))
      ⊎ ((j : ℕ) × (k : String) × (get_elem? s.tasks j ≡ some (leading k h)))
unfolding is_pending
served s h none e below made = absurd (get_elem?-below s.group.futures h below e)
served s h (some none) e below made = inr (exists-total h s.tasks made)
served s h (some (some r)) e below made = inl (r, refl)

init-IsServed : (R : Type 0) → IsServed (init {R = R})
unfolding is_pending Dict.get
init-IsServed R = record {
  entries = λ key h e. ground (arith, e);
  waits = λ i h e. ground (arith, e);
  made = λ h. omega arith;
}

module _ {R : Type 0} where
  Reach-IsServed : (c : R) {s : System R} → Reach c init s → IsServed s
  Reach-IsServed c here = init-IsServed R
  Reach-IsServed c (next {t} {u} r st) = Step-IsServed c t u st (Reach-IsServed c r)

  -- No task waits for nothing: in every state that can be reached, the future that a task waits for
  -- is done, so that the task can go on, or a task is still making the request that will set it.
  pub waiter_served :
      (cancelled : R) {s : System R} (i h : ℕ)
      → Reach cancelled init s
      → get_elem? s.tasks i ≡ some (waiting h)
      → ((r : R) × (get_elem? s.group.futures h ≡ some (some r)))
        ⊎ ((j : ℕ) × (k : String) × (get_elem? s.tasks j ≡ some (leading k h)))
  waiter_served cancelled {s} i h reached at =
      let v = Reach-IsServed cancelled reached in
      served s h (get_elem? s.group.futures h) refl (v.waits i h at) (v.made h)
