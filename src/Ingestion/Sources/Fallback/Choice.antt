-- ===== src/Ingestion/Sources/Fallback/Choice.antt =====
-- Which source gives each symbol its row.
use chainmonitor.Prelude.{
  ℕ, ◌+◌, String, ◌≡◌, refl, sym, ap, ◌∙◌, inl, inr, Option, none, some, List, [], ◌∷◌, arith,
  str_eq, eq_iff, if◌then◌else◌, Option-cases,
}
use chainmonitor.Dict
use chainmonitor.Dict.{Dict, get-put}
use chainmonitor.Pipeline.Schemas.{MarketTickInput}
use chainmonitor.Ingestion.Sources.{IngestionFetchError, Fetched, returned, fetch_failed, raised}
use chainmonitor.Ingestion.Sources.Fallback.{
  Source, FallbackSourceChain, Collected, set_defaults, missing, take_rows, ask_sources, rows_of,
  conclude, fetch_market_ticks,
}

module _ {F : Type 0} where
  -- The first row of a token.
  unfoldable pub find_row : String → List (MarketTickInput F) → Option (MarketTickInput F)
  find_row token [] = none
  find_row token (row ∷ rows) =
      let rest = find_row token rows in if str_eq row.token_id token then some row else rest

  -- An independent description: the row of a token in the first source that has one.
  unfoldable pub first_row : ℕ → String → List (Source F) → Option (MarketTickInput F)
  unfolding find_row
  first_row ts token [] = none
  first_row ts token (s ∷ ss) = elim (s ts) [
    | returned rows ↦ elim (find_row token rows) [
      | none ↦ first_row ts token ss
      | some row ↦ some row
    ]
    | _ ↦ first_row ts token ss
  ]

-- The values, if all are there.
unfoldable pub all_some : {A B : Type 0} → (A → Option B) → List A → Option (List B)
all_some f [] = some []
all_some f (a ∷ rest) = elim (f a) [
  | none ↦ none
  | some b ↦ elim (all_some f rest) [ none ↦ none | some bs ↦ some (b ∷ bs) ]
]

-- What a call returns, if it does.
unfoldable pub value : {A : Type 0} → Fetched A → Option A
value (returned a) = some a
value (fetch_failed e) = none
value raised = none

abbrev pub or_else : {A : Type 0} → Option A → Option A → Option A
or_else none b = b
or_else (some a) b = some a

or_else_assoc : {A : Type 0} (a b c : Option A) → or_else (or_else a b) c ≡ or_else a (or_else b c)
or_else_assoc none b c = refl
or_else_assoc (some a) b c = refl

or_else-none : {A : Type 0} (a : Option A) → or_else a none ≡ a
or_else-none none = refl
or_else-none (some a) = refl

-- No source fails in another way than by an `IngestionFetchError`.
pub data AllAnswer {F : Type 0} (ts : ℕ) : List (Source F) → Type 0 where
  none_left : AllAnswer ts []
  answers :
      {s : Source F} {ss : List (Source F)}
      → (s ts ≡ raised → ⊥)
      → AllAnswer ts ss
      → AllAnswer ts (s ∷ ss)

module _ {F : Type 0} where
  get-set_defaults :
      (rows : List (MarketTickInput F)) (d : Dict (MarketTickInput F)) (token : String)
      → Dict.get (set_defaults rows d) token ≡ or_else (Dict.get d token) (find_row token rows)
  unfolding set_defaults find_row
  get-set_defaults [] d token = elim (Option-cases (Dict.get d token)) [
    | inl absent ↦ rw (absent) refl
    | inr (r, there) ↦ rw (there) refl
  ]
  get-set_defaults (row ∷ rows) d token = elim (Option-cases (Dict.get d row.token_id)) [
    | inl absent ↦ ground (
      arith,
      absent,
      get-set_defaults rows (Dict.put d row.token_id row) token,
      get-put d row.token_id token row,
      eq_iff row.token_id token,
    )
    | inr (r, there) ↦
        ground (arith, there, get-set_defaults rows d token, eq_iff row.token_id token)
  ]

  missing-nil :
      (identify : String → String) (symbols : List String) (d : Dict (MarketTickInput F))
      → missing identify symbols d ≡ []
      → (rows : List (MarketTickInput F)) × (rows_of identify symbols d ≡ returned rows)
        × (all_some (λ s. Dict.get d (identify s)) symbols ≡ some rows)
  unfolding missing rows_of all_some
  missing-nil identify [] d none_missing = ([], refl, refl)
  missing-nil identify (s ∷ ss) d none_missing = elim (Option-cases (Dict.get d (identify s))) [
    | inl absent ↦ absurd (ground (arith, absent, none_missing))
    | inr (row, there) ↦
        let (rows, found, all) = missing-nil identify ss d (ground (arith, there, none_missing)) in
        (row ∷ rows, ground (arith, there, found), ground (arith, there, all))
  ]

  missing-some :
      (identify : String → String) (symbols : List String) (d : Dict (MarketTickInput F))
      (m : String) (ms : List String)
      → missing identify symbols d ≡ m ∷ ms
      → all_some (λ s. Dict.get d (identify s)) symbols ≡ none
  unfolding missing all_some
  missing-some identify [] d m ms e = absurd (ground (arith, e))
  missing-some identify (s ∷ ss) d m ms e = elim (Option-cases (Dict.get d (identify s))) [
    | inl absent ↦ ground (arith, absent)
    | inr (row, there) ↦
        ground (arith, there, missing-some identify ss d m ms (ground (arith, there, e)))
  ]

all_some-eq :
    {A B : Type 0} (f g : A → Option B) (xs : List A)
    → ((a : A) → f a ≡ g a)
    → all_some f xs ≡ all_some g xs
all_some-eq f g xs same = ap (λ h. all_some h xs) (λ i a. same a i)

all_some-or_else :
    {A B : Type 0} (f g : A → Option B) (xs : List A) (bs : List B)
    → all_some f xs ≡ some bs
    → all_some (λ a. or_else (f a) (g a)) xs ≡ some bs
unfolding all_some
all_some-or_else f g [] bs e = e
all_some-or_else {A} {B} f g (x ∷ xs) bs e = elim (Option-cases (f x)) [
  | inl absent ↦ absurd (ground (arith, absent, e))
  | inr (b, there) ↦ elim (Option-cases (all_some f xs)) [
    | inl none_all ↦ absurd (ground (arith, there, none_all, e))
    | inr (cs, all) ↦ ground (arith, there, all, e, all_some-or_else f g xs cs all)
  ]
]

module _ {F : Type 0} (text : ℕ → String) (identify : String → String) (symbols : List String)
    (ts : ℕ) where
  -- The loop ends, and each symbol has the row that it had, or else its first row in the sources
  -- that were left.
  abbrev Chosen : List (Source F) → Collected F → Fetched (Collected F) → Type 0
  Chosen ss c r =
      (c' : Collected F) × (r ≡ returned c')
      × (all_some (λ s. Dict.get c'.by_token (identify s)) symbols
          ≡ all_some
              (λ s. or_else (Dict.get c.by_token (identify s)) (first_row ts (identify s) ss))
              symbols)

  first_row-or_else :
      (token : String) (s : Source F) (ss : List (Source F)) (rows : List (MarketTickInput F))
      → s ts ≡ returned rows
      → first_row ts token (s ∷ ss) ≡ or_else (find_row token rows) (first_row ts token ss)
  unfolding first_row
  first_row-or_else token s ss rows e = elim (Option-cases (find_row token rows)) [
    | inl absent ↦ ground (arith, e, absent)
    | inr (row, there) ↦ ground (arith, e, there)
  ]

  first_row-failed :
      (token : String) (s : Source F) (ss : List (Source F)) (e : IngestionFetchError)
      → s ts ≡ fetch_failed e
      → first_row ts token (s ∷ ss) ≡ first_row ts token ss
  unfolding first_row
  first_row-failed token s ss e failed = ground (arith, failed)

  take_rows-Chosen :
      (index : ℕ) (c : Collected F) (s : Source F) (ss : List (Source F))
      (more : Collected F → Fetched (Collected F)) (o : Fetched (List (MarketTickInput F)))
      → s ts ≡ o
      → (o ≡ raised → ⊥)
      → ((c1 : Collected F) → Chosen ss c1 (more c1))
      → Chosen (s ∷ ss) c (take_rows text index c more o)
  unfolding take_rows
  take_rows-Chosen index c s ss more (returned rows) e answered rest =
      let (c', done, same) = rest (record c { by_token = set_defaults rows c.by_token }) in
      (
        c',
        done,
        same
            ∙ all_some-eq _ _ symbols (λ x.
              rw
                (
                  get-set_defaults rows c.by_token (identify x),
                  first_row-or_else (identify x) s ss rows e,
                )
                (or_else_assoc (Dict.get c.by_token (identify x)) (find_row (identify x) rows)
                  (first_row ts (identify x) ss))),
      )
  take_rows-Chosen index c s ss more (fetch_failed f) e answered rest =
      let (c', done, same) = rest _ in
      (
        c',
        done,
        same
            ∙ all_some-eq _ _ symbols (λ x.
              ap (or_else (Dict.get c.by_token (identify x)))
                (sym (first_row-failed (identify x) s ss f e))),
      )
  take_rows-Chosen index c s ss more raised e answered rest = absurd (answered refl)

  -- The round is skipped where nothing is missing.
  missing-Chosen :
      (c : Collected F) (ss : List (Source F)) (r : Fetched (Collected F)) (m : List String)
      → missing identify symbols c.by_token ≡ m
      → Chosen ss c r
      → Chosen ss c (elim m [ [] ↦ returned c | _ ∷ _ ↦ r ])
  missing-Chosen c ss r [] e chosen =
      let (rows, _, found) = missing-nil identify symbols c.by_token e in
      (
        c,
        refl,
        found
            ∙ sym (
                all_some-or_else (λ x. Dict.get c.by_token (identify x))
                  (λ x. first_row ts (identify x) ss) symbols rows found),
      )
  missing-Chosen c ss r (x ∷ xs) e chosen = chosen

  ask_sources-Chosen :
      (index : ℕ) (ss : List (Source F)) (c : Collected F)
      → AllAnswer ts ss
      → Chosen ss c (ask_sources text identify ts symbols index ss c)
  unfolding ask_sources
  ask_sources-Chosen index [] c all = (
    c,
    refl,
    all_some-eq _ _ symbols
        (λ x. unfold first_row in sym (or_else-none (Dict.get c.by_token (identify x)))),
  )
  ask_sources-Chosen index (s ∷ ss) c (answers answered all) =
      missing-Chosen c (s ∷ ss) _ (missing identify symbols c.by_token) refl (
        take_rows-Chosen index c s ss (ask_sources text identify ts symbols (index + 1) ss) (s ts)
          refl answered (λ c1. ask_sources-Chosen (index + 1) ss c1 all))

module _ {F : Type 0} (text : ℕ → String) (identify : String → String) where
  conclude-value :
      (chain_id : String) (symbols : List String) (c : Collected F) (m : List String)
      → missing identify symbols c.by_token ≡ m
      → (value (conclude identify chain_id symbols (returned c))
          ≡ all_some (λ s. Dict.get c.by_token (identify s)) symbols)
        × (conclude identify chain_id symbols (returned c) ≡ raised → ⊥)
  unfolding conclude value
  conclude-value chain_id symbols c [] e =
      let (rows, found, all) = missing-nil identify symbols c.by_token e in
      (ground (arith, e, found, all), λ bad. ground (arith, e, found, bad))
  conclude-value chain_id symbols c (x ∷ xs) e = (
    ground (arith, e, missing-some identify symbols c.by_token x xs e),
    λ bad. ground (arith, e, bad),
  )

  -- Where no source fails in another way than by an `IngestionFetchError`, neither does the chain,
  -- and it returns exactly the rows that each symbol has in the first source that has one, in the
  -- order of the symbols, and returns nothing when a symbol has a row in no source: that it stops to
  -- ask when all symbols have rows, skips the sources that fail and keeps rows by token changes
  -- nothing.
  pub fetch-first_row :
      (chain : FallbackSourceChain F) (symbols : List String) (ts : ℕ)
      → AllAnswer ts chain.sources
      → (value (fetch_market_ticks text identify chain symbols ts)
          ≡ all_some (λ s. first_row ts (identify s) chain.sources) symbols)
        × (fetch_market_ticks text identify chain symbols ts ≡ raised → ⊥)
  unfolding fetch_market_ticks
  fetch-first_row chain symbols ts all =
      let (c, done, same) =
        ask_sources-Chosen text identify symbols ts 0 chain.sources
          (record { by_token = []; source_errors = []; trace_id = "fallback-missing" }) all in
      let ended =
        conclude-value chain.chain_id symbols c (missing identify symbols c.by_token) refl in
      rw done (ended.0 ∙ (unfold Dict.get in same), ended.1)
