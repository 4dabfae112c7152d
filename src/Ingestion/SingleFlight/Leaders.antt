-- ===== src/Ingestion/SingleFlight/Leaders.antt =====
-- At most one task leads the requests for a key.
use chainmonitor.Prelude.{
  ℕ, ◌≤◌, String, ◌≡◌, refl, sym, Bool, ◌&&◌, Option, none, some, [], ◌∷◌, arith, str_eq, eq_iff,
  ◌==◌, if◌then◌else◌, length, get_elem?, set,
}
use chainmonitor.Ingestion.SingleFlight.Weights.{total, total-append, total-set, total-ge, two_many}
use mathlib.Core.Path.{subst}
use native.Mathlib.Decide.{ℕ_discrete}
use chainmonitor.Dict
use chainmonitor.Dict.{Dict, get-put, get-remove}
use chainmonitor.Ingestion.SingleFlight.{
  SingleFlightGroup, Task, leading, settled, waiting, ended, System, init, acquire, is_holder,
  release, set_result, task_of, join, settle, finish, wake, cancel, Step, joins, settles, finishes,
  wakes, cancels, Reach, here, next,
}

module _ {R : Type 0} where
  -- Whether a task leads the requests for the key, with the future: from its `acquire` to its
  -- `release`.
  unfoldable pub leads : String → ℕ → Task R → ℕ
  leads key holder (leading k h) = if str_eq k key && (h == holder) then 1 else 0
  leads key holder (settled k h r) = if str_eq k key && (h == holder) then 1 else 0
  leads key holder (waiting h) = 0
  leads key holder (ended r) = 0

  -- Of each key and future there is one leader if it is the key's entry, and none otherwise.
  unfoldable IsLed : System R → Type 0
  IsLed s =
      (key : String) (holder : ℕ)
      → total (leads key holder) s.tasks
        ≡ (if is_holder (Dict.get s.group.inflight_requests key) holder then 1 else 0)

  join-IsLed : (k : String) (s : System R) → IsLed s → IsLed (join k s)
  unfolding IsLed join acquire leads is_holder total
  join-IsLed k s led key holder =
      let new = length s.group.futures in
      ground (
        arith,
        total-append (leads key holder) s.tasks (task_of k (acquire k s.group).0 ∷ []),
        get-put s.group.inflight_requests k key new,
        led key holder,
        eq_iff k key,
      )

  same_tasks :
      (s : System R) (i : ℕ) (a b : Task R) (g : SingleFlightGroup R)
      → get_elem? s.tasks i ≡ some a
      → ((key : String) (holder : ℕ) → leads key holder a ≡ leads key holder b)
      → g.inflight_requests ≡ s.group.inflight_requests
      → IsLed s
      → IsLed (record { group = g; tasks = set s.tasks i b })
  unfolding IsLed
  same_tasks s i a b g at same requests led key holder = rw requests (
      omega (arith, total-set (leads key holder) s.tasks i a b at, same key holder, led key holder))

  inflight-set_result :
      (h : ℕ) (r : R) (g : SingleFlightGroup R)
      → (set_result h r g).inflight_requests ≡ g.inflight_requests
  unfolding set_result
  inflight-set_result h r g = ground arith

  finish-IsLed :
      (i : ℕ) (k : String) (h : ℕ) (r : R) (s : System R)
      → get_elem? s.tasks i ≡ some (settled k h r)
      → IsLed s
      → IsLed (finish i k h r s)
  unfolding IsLed finish release is_holder leads
  finish-IsLed i k h r s at led key holder = ground (
    arith,
    total-set (leads key holder) s.tasks i (settled k h r) (ended r) at,
    total-ge (leads k h) s.tasks i (settled k h r) at,
    get-remove s.group.inflight_requests k key,
    led key holder,
    led k h,
    eq_iff k key,
    eq_iff k k,
  )

  Step-IsLed : (c : R) (s t : System R) → Step c s t → IsLed s → IsLed t
  Step-IsLed c s t (joins k e) led = subst IsLed (sym e) (join-IsLed k s led)
  Step-IsLed c s t (settles i k h r at e) led = subst IsLed (sym e) (
      unfold settle leads in
      same_tasks s i (leading k h) (settled k h r) _ at (λ key holder. refl)
        (inflight-set_result h r s.group) led)
  Step-IsLed c s t (finishes i k h r at e) led = subst IsLed (sym e) (finish-IsLed i k h r s at led)
  Step-IsLed c s t (wakes i h r at done e) led =
      subst IsLed (sym e) (
        unfold wake leads in
        same_tasks s i (waiting h) (ended r) _ at (λ key holder. refl) refl led)
  Step-IsLed c s t (cancels i h at e) led = subst IsLed (sym e) (
      unfold cancel leads in
      same_tasks s i (waiting h) (ended c) _ at (λ key holder. refl)
        (inflight-set_result h c s.group) led)

same_holder :
    (o : Option ℕ) (h h' n n' : ℕ)
    → n ≡ (if is_holder o h then 1 else 0)
    → n' ≡ (if is_holder o h' then 1 else 0)
    → 1 ≤ n
    → 1 ≤ n'
    → h ≡ h'
unfolding is_holder
same_holder none h h' n n' a b c d = ground arith
same_holder (some x) h h' n n' a b c d = ground arith

ind_le : (b : Bool) (n : ℕ) → n ≡ (if b then 1 else 0) → n ≤ 1
ind_le b n h = ground arith

init-IsLed : (R : Type 0) → IsLed (init {R = R})
unfolding IsLed Dict.get is_holder total
init-IsLed R key holder = refl

module _ {R : Type 0} where
  Reach-IsLed : (c : R) {s : System R} → Reach c init s → IsLed s
  Reach-IsLed c here = init-IsLed R
  Reach-IsLed c (next {t} {u} r st) = Step-IsLed c t u st (Reach-IsLed c r)

  -- The future of a task that leads the requests for the key.
  unfoldable pub leader_at : String → Option (Task R) → Option ℕ
  leader_at key none = none
  leader_at key (some (leading k h)) = if str_eq k key then some h else none
  leader_at key (some (settled k h r)) = if str_eq k key then some h else none
  leader_at key (some (waiting h)) = none
  leader_at key (some (ended r)) = none

  leads-leader_at :
      (key : String) (h : ℕ) (o : Option (Task R))
      → leader_at key o ≡ some h
      → (t : Task R) × (o ≡ some t) × (leads key h t ≡ 1)
  unfolding leader_at leads
  leads-leader_at key h none e = ground arith
  leads-leader_at key h (some (leading k g)) e = (leading k g, refl, ground arith)
  leads-leader_at key h (some (settled k g r)) e = (settled k g r, refl, ground arith)
  leads-leader_at key h (some (waiting g)) e = ground arith
  leads-leader_at key h (some (ended r)) e = ground arith

  -- However tasks come, end, wake and are cancelled, two tasks that lead the requests for one key
  -- are the same task: at most one request for a key is under way.
  pub one_leader :
      (cancelled : R) {s : System R} (key : String) (i j h h' : ℕ)
      → Reach cancelled init s
      → leader_at key (get_elem? s.tasks i) ≡ some h
      → leader_at key (get_elem? s.tasks j) ≡ some h'
      → i ≡ j
  unfolding IsLed
  one_leader cancelled {s} key i j h h' reached first second =
      let led = Reach-IsLed cancelled reached in
      let (a, at_i, one_i) = leads-leader_at key h (get_elem? s.tasks i) first in
      let (b, at_j, one_j) = leads-leader_at key h' (get_elem? s.tasks j) second in
      let one =
        same_holder (Dict.get s.group.inflight_requests key) h h' (total (leads key h) s.tasks)
          (total (leads key h') s.tasks) (led key h) (led key h')
          (omega (arith, one_i, total-ge (leads key h) s.tasks i a at_i))
          (omega (arith, one_j, total-ge (leads key h') s.tasks j b at_j)) in
      let one_b : leads key h b ≡ 1 = subst (λ (n : ℕ). leads key n b ≡ 1) (sym one) one_j in
      elim (ℕ_discrete i j) [
        | yes same ↦ same
        | no other ↦ absurd (
            two_many (leads key h) s.tasks i j a b at_i at_j other one_i one_b
              (ind_le (is_holder (Dict.get s.group.inflight_requests key) h) _ (led key h)))
      ]
