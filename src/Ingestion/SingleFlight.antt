-- ===== src/Ingestion/SingleFlight.antt =====
-- src/ingestion/resilience/singleflight.py: `SingleFlightGroup`, and the tasks that use it in
-- `get_json` of resilient_http_client.py.
--
-- A future is an index into the list of all futures; `none` is one that is not done. `acquire` and
-- `release` hold the lock, so each is one step; the tasks interleave in any order.
pub mod Weights
pub mod Futures
pub mod Leaders
pub mod Waiters
pub mod Spreads
use chainmonitor.Prelude.{
  ℕ, ◌+◌, ◌-◌, ◌/◌, String, ◌≡◌, Bool, true, false, not, Option, none, some, List, [], ◌∷◌, ◌++◌,
  ◌==◌, if◌then◌else◌, length, get_elem?, set,
}
use chainmonitor.Dict
use chainmonitor.Dict.{Dict}

pub record SingleFlightGroup (R : Type 0) : Type 0 where
  pub inflight_requests : Dict ℕ
  pub futures : List (Option R)

-- A task that called `get_json`, after its `acquire`: it leads and makes the request, or has set its
-- future and is to release it, or waits for a future, or has its result.
pub data Task (R : Type 0) : Type 0 where
  leading : String → ℕ → Task R
  settled : String → ℕ → R → Task R
  waiting : ℕ → Task R
  ended : R → Task R

pub record System (R : Type 0) : Type 0 where
  pub group : SingleFlightGroup R
  pub tasks : List (Task R)

-- `if current is holder`
unfoldable pub is_holder : Option ℕ → ℕ → Bool
is_holder none holder = false
is_holder (some current) holder = current == holder

module _ {R : Type 0} where
  abbrev pub init : System R
  init = record { group = record { inflight_requests = []; futures = [] }; tasks = [] }

  -- The future, and whether the caller leads.
  unfoldable pub acquire : String → SingleFlightGroup R → (ℕ × Bool) × SingleFlightGroup R
  acquire key g = elim (Dict.get g.inflight_requests key) [
    | some holder ↦ ((holder, false), g)
    | none ↦ (
      (length g.futures, true),
      record {
        inflight_requests = Dict.put g.inflight_requests key (length g.futures);
        futures = g.futures ++ none ∷ [];
      },
    )
  ]

  unfoldable pub release : String → ℕ → SingleFlightGroup R → SingleFlightGroup R
  release key holder g =
      if is_holder (Dict.get g.inflight_requests key) holder
      then record g { inflight_requests = Dict.remove g.inflight_requests key }
      else g

  -- Whether the future is there and not done.
  unfoldable pub is_pending : Option (Option R) → Bool
  is_pending none = false
  is_pending (some none) = true
  is_pending (some (some r)) = false

  -- `if not leader_future.done(): leader_future.set_result(result)`
  unfoldable pub set_result : ℕ → R → SingleFlightGroup R → SingleFlightGroup R
  set_result holder r g =
      if is_pending (get_elem? g.futures holder)
      then record g { futures = set g.futures holder (some r) }
      else g

  -- The task that comes out of `acquire`.
  abbrev pub task_of : String → ℕ × Bool → Task R
  task_of key (holder, true) = leading key holder
  task_of key (holder, false) = waiting holder

  -- A new task calls `acquire`.
  unfoldable pub join : String → System R → System R
  join key s =
      let (taken, g) = acquire key s.group in
      record { group = g; tasks = s.tasks ++ task_of key taken ∷ [] }

  -- Task i leaves its request with a result or an exception.
  unfoldable pub settle : ℕ → String → ℕ → R → System R → System R
  settle i key holder r s = record {
    group = set_result holder r s.group;
    tasks = set s.tasks i (settled key holder r);
  }

  -- The `finally` of task i.
  unfoldable pub finish : ℕ → String → ℕ → R → System R → System R
  finish i key holder r s = record {
    group = release key holder s.group;
    tasks = set s.tasks i (ended r);
  }

  -- `await leader_future` ends.
  unfoldable pub wake : ℕ → R → System R → System R
  wake i r s = record s { tasks = set s.tasks i (ended r) }

  -- Task i is cancelled while it waits: `await` cancels the future that it waits for.
  unfoldable pub cancel : R → ℕ → ℕ → System R → System R
  cancel cancelled i holder s = record {
    group = set_result holder cancelled s.group;
    tasks = set s.tasks i (ended cancelled);
  }

  -- `cancelled` is the outcome `CancelledError`.
  pub data Step (cancelled : R) (s t : System R) : Type 0 where
    joins : (key : String) → t ≡ join key s → Step cancelled s t
    settles :
        (i : ℕ) (key : String) (holder : ℕ) (r : R)
        → get_elem? s.tasks i ≡ some (leading key holder)
        → t ≡ settle i key holder r s
        → Step cancelled s t
    finishes :
        (i : ℕ) (key : String) (holder : ℕ) (r : R)
        → get_elem? s.tasks i ≡ some (settled key holder r)
        → t ≡ finish i key holder r s
        → Step cancelled s t
    wakes :
        (i holder : ℕ) (r : R)
        → get_elem? s.tasks i ≡ some (waiting holder)
        → get_elem? s.group.futures holder ≡ some (some r)
        → t ≡ wake i r s
        → Step cancelled s t
    cancels :
        (i holder : ℕ)
        → get_elem? s.tasks i ≡ some (waiting holder)
        → t ≡ cancel cancelled i holder s
        → Step cancelled s t

  pub data Reach (cancelled : R) (s : System R) : System R → Type 0 where
    here : Reach cancelled s s
    next : {t u : System R} → Reach cancelled s t → Step cancelled t u → Reach cancelled s u
