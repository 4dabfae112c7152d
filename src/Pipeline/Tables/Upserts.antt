-- ===== src/Pipeline/Tables/Upserts.antt =====
-- What upserts leave in a table.
use chainmonitor.Prelude.{
  ℕ, ◌+◌, ◌≡◌, refl, ap, ◌∙◌, Bool, true, false, ◌&&◌, ◌||◌, Option, some, List, [], ◌∷◌, arith,
  eq_iff, if◌then◌else◌,
}
use chainmonitor.Float.{Float}
use chainmonitor.Pipeline.Schemas.{ScoreRowInput}
use chainmonitor.Pipeline.Tables.{
  Key, same_key, Table, upsert, upsert_all, find, Tables, score_key, is_candidate, candidate_rows,
  insert_ranked, ranking, save_scores_and_candidates,
}

-- Whether two keys are the same does not depend on which is compared to a third.
same_key-same : (a b c : Key) → same_key a b ≡ true → same_key a c ≡ same_key b c
unfolding same_key
same_key-same a b c h = ground (
  arith,
  eq_iff a.strategy_version b.strategy_version,
  eq_iff a.chain_id b.chain_id,
  eq_iff a.token_id b.token_id,
  eq_iff a.strategy_version c.strategy_version,
  eq_iff a.chain_id c.chain_id,
  eq_iff a.token_id c.token_id,
  eq_iff b.strategy_version c.strategy_version,
  eq_iff b.chain_id c.chain_id,
  eq_iff b.token_id c.token_id,
)

same_key_comm : (a b : Key) → same_key a b ≡ same_key b a
unfolding same_key
same_key_comm a b = ground (
  arith,
  eq_iff a.strategy_version b.strategy_version,
  eq_iff a.chain_id b.chain_id,
  eq_iff a.token_id b.token_id,
  eq_iff b.strategy_version a.strategy_version,
  eq_iff b.chain_id a.chain_id,
  eq_iff b.token_id a.token_id,
)

module _ {R : Type 0} where
  find-upsert :
      (rows : Table R) (k j : Key) (r : R)
      → find (upsert rows k r) j ≡ (if same_key k j then some r else find rows j)
  unfolding find upsert
  find-upsert [] k j r = refl
  find-upsert ((i, q) ∷ rows) k j r =
      ground
        (arith, same_key-same i k j, same_key-same i j k, same_key_comm j k, find-upsert rows k j r)

  -- What is under a key after some rows are written: the last row with the key, or else what was
  -- there before.
  unfoldable pub written : Option R → List (Key × R) → Key → Option R
  written before [] k = before
  written before ((j, r) ∷ new) k = written (if same_key j k then some r else before) new k

  pub find-upsert_all :
      (rows : Table R) (new : List (Key × R)) (k : Key)
      → find (upsert_all rows new) k ≡ written (find rows k) new k
  unfolding upsert_all written
  find-upsert_all rows [] k = refl
  find-upsert_all rows ((j, r) ∷ new) k =
      find-upsert_all (upsert rows j r) new k ∙ ap (λ o. written o new k) (find-upsert rows j k r)

  -- Whether some row has the key.
  unfoldable pub writes : List (Key × R) → Key → Bool
  writes [] k = false
  writes ((j, r) ∷ new) k = same_key j k || writes new k

  pub written-absent :
      (before : Option R) (new : List (Key × R)) (k : Key)
      → writes new k ≡ false
      → written before new k ≡ before
  unfolding written writes
  written-absent before [] k h = refl
  written-absent before ((j, r) ∷ new) k h = ground (arith, written-absent before new k)

  -- Where a row has the key, what was there before does not matter.
  written-present :
      (before before' : Option R) (new : List (Key × R)) (k : Key)
      → writes new k ≡ true
      → written before new k ≡ written before' new k
  unfolding written writes
  written-present before before' [] k h = ground arith
  written-present before before' ((j, r) ∷ new) k h =
      ground (arith, written-present before before' new k)

  -- Writing the same rows again changes nothing under any key, so that a run that is done again
  -- with the same data leaves the table as it was.
  pub upsert_all_again :
      (rows : Table R) (new : List (Key × R)) (k : Key)
      → find (upsert_all (upsert_all rows new) new) k ≡ find (upsert_all rows new) k
  upsert_all_again rows new k =
      let once = find-upsert_all rows new k in
      let twice = find-upsert_all (upsert_all rows new) new k in
      ground (
        arith,
        once,
        twice,
        written-absent (find (upsert_all rows new) k) new k,
        written-present (find (upsert_all rows new) k) (find rows k) new k,
      )

module _ (float : Float) where
  open float use {F, lt}

  -- Whether a score has the key and a tier of candidates.
  unfoldable pub selects : Key → ScoreRowInput F → Bool
  selects k s = same_key (score_key float s) k && is_candidate float s.tier

  unfoldable pub is_selected : List (ScoreRowInput F) → Key → Bool
  is_selected [] k = false
  is_selected (s ∷ ss) k = selects k s || is_selected ss k

  is_selected-insert :
      (s : ScoreRowInput F) (ss : List (ScoreRowInput F)) (k : Key)
      → is_selected (insert_ranked float s ss) k ≡ is_selected (s ∷ ss) k
  unfolding is_selected insert_ranked
  is_selected-insert s [] k = refl
  is_selected-insert s (r ∷ rs) k = ground (arith, is_selected-insert s rs k)

  is_selected-ranking :
      (ss : List (ScoreRowInput F)) (k : Key) → is_selected (ranking float ss) k ≡ is_selected ss k
  unfolding is_selected ranking
  is_selected-ranking [] k = refl
  is_selected-ranking (s ∷ ss) k =
      ground (arith, is_selected-ranking ss k, is_selected-insert s (ranking float ss) k)

  writes-candidates :
      (rank : ℕ) (ss : List (ScoreRowInput F)) (k : Key)
      → writes (candidate_rows float rank ss) k ≡ is_selected ss k
  unfolding writes candidate_rows is_selected selects
  writes-candidates rank [] k = refl
  writes-candidates rank (s ∷ ss) k = ground (arith, writes-candidates (rank + 1) ss k)

  -- Saving scores in which no row of a key has a tier of candidates leaves the candidate of the key
  -- that was there before, if there was one: a run that is done again and no longer selects a token
  -- does not take the token off the candidates.
  pub candidate_stays :
      (rows : List (ScoreRowInput F)) (db : Tables float) (k : Key)
      → is_selected rows k ≡ false
      → find (save_scores_and_candidates float rows db).candidate_pool_snapshots k
        ≡ find db.candidate_pool_snapshots k
  unfolding save_scores_and_candidates
  candidate_stays rows db k h =
      let new = candidate_rows float 1 (ranking float rows) in
      find-upsert_all db.candidate_pool_snapshots new k
      ∙ written-absent (find db.candidate_pool_snapshots k) new k
          (writes-candidates 1 (ranking float rows) k ∙ is_selected-ranking rows k ∙ h)
