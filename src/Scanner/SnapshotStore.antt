-- ===== src/Scanner/SnapshotStore.antt =====
-- src/scanner/snapshot_store.py: the table `scanner_snapshots`, whose key is (chain, interval). The
-- rows are the state; the database does not fail, and JSON gives back the numbers it was given.
use chainmonitor.Prelude.{
  ℕ, String, ◌≡◌, refl, Bool, ◌&&◌, Option, none, some, List, [], ◌∷◌, map, arith, str_eq, eq_iff,
  if◌then◌else◌,
}
use chainmonitor.Scanner.Models.{TrendingToken, Snapshot}

-- `snapshot_data` has the tokens without their `chain`, which nothing reads from it.
pub record Row (F : Type 0) : Type 0 where
  pub chain : String
  pub interval : String
  pub snapshot_data : List (TrendingToken F)
  pub taken_at : ℕ

module _ {F : Type 0} where
  has_key : String → String → Row F → Bool
  has_key chain interval row = str_eq row.chain chain && str_eq row.interval interval

  -- `INSERT ... ON CONFLICT (chain, interval) DO UPDATE`
  unfoldable pub upsert : Row F → List (Row F) → List (Row F)
  unfolding has_key
  upsert row [] = row ∷ []
  upsert row (r ∷ rows) =
      if has_key row.chain row.interval r then row ∷ rows else r ∷ upsert row rows

  abbrev pub row_of : String → String → Snapshot F → Row F
  row_of chain interval snapshot = record {
    chain = chain;
    interval = interval;
    snapshot_data = snapshot.tokens;
    taken_at = snapshot.taken_at;
  }

  unfoldable pub save : String → String → Snapshot F → List (Row F) → List (Row F)
  save chain interval snapshot rows = upsert (row_of chain interval snapshot) rows

  -- `SELECT ... WHERE chain = :chain AND interval = :interval`
  unfoldable pub select : String → String → List (Row F) → Option (Row F)
  unfolding has_key
  select chain interval [] = none
  select chain interval (r ∷ rows) =
      if has_key chain interval r then some r else select chain interval rows

  -- `TrendingToken(**{**t, "chain": chain})`
  abbrev pub with_chain : String → TrendingToken F → TrendingToken F
  with_chain chain t = record t { chain = chain }

  unfoldable pub load : String → String → List (Row F) → Option (Snapshot F)
  load chain interval rows = elim (select chain interval rows) [
    | none ↦ none
    | some row ↦ some (record {
      chain = chain;
      interval = interval;
      tokens = map (with_chain chain) row.snapshot_data;
      taken_at = row.taken_at;
    })
  ]

  -- `DELETE ... WHERE chain = :chain AND interval = :interval`
  unfoldable pub clear : String → String → List (Row F) → List (Row F)
  unfolding has_key
  clear chain interval [] = []
  clear chain interval (r ∷ rows) =
      let rest = clear chain interval rows in if has_key chain interval r then rest else r ∷ rest

  select-upsert :
      (row : Row F) (chain interval : String) (rows : List (Row F))
      → select chain interval (upsert row rows) ≡ (
          if str_eq row.chain chain && str_eq row.interval interval
          then some row
          else select chain interval rows)
  unfolding select upsert
  select-upsert row chain interval [] = refl
  select-upsert row chain interval (r ∷ rows) = ground (
    arith,
    select-upsert row chain interval rows,
    eq_iff row.chain chain,
    eq_iff row.interval interval,
    eq_iff r.chain row.chain,
    eq_iff r.interval row.interval,
    eq_iff r.chain chain,
    eq_iff r.interval interval,
  )

  -- What is loaded after a save: under the key that was saved, the tokens and the time of the
  -- snapshot, with the chain of the key; under every other key, what was there.
  pub load-save :
      (chain interval c i : String) (snapshot : Snapshot F) (rows : List (Row F))
      → load c i (save chain interval snapshot rows) ≡ (
          if str_eq chain c && str_eq interval i
          then some (record {
            chain = c;
            interval = i;
            tokens = map (with_chain c) snapshot.tokens;
            taken_at = snapshot.taken_at;
          })
          else load c i rows)
  unfolding load save
  load-save chain interval c i snapshot rows = ground (
    arith,
    select-upsert (row_of chain interval snapshot) c i rows,
    eq_iff chain c,
    eq_iff interval i,
  )

  select-clear :
      (chain interval c i : String) (rows : List (Row F))
      → select c i (clear chain interval rows)
        ≡ (if str_eq chain c && str_eq interval i then none else select c i rows)
  unfolding select clear
  select-clear chain interval c i [] = ground arith
  select-clear chain interval c i (r ∷ rows) = ground (
    arith,
    select-clear chain interval c i rows,
    eq_iff chain c,
    eq_iff interval i,
    eq_iff r.chain chain,
    eq_iff r.interval interval,
    eq_iff r.chain c,
    eq_iff r.interval i,
  )

  -- After `clear` nothing is loaded under the key, and what other keys load is as it was.
  pub load-clear :
      (chain interval c i : String) (rows : List (Row F))
      → load c i (clear chain interval rows)
        ≡ (if str_eq chain c && str_eq interval i then none else load c i rows)
  unfolding load
  load-clear chain interval c i rows = ground (arith, select-clear chain interval c i rows)
