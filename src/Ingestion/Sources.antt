-- ===== src/Ingestion/Sources.antt =====
-- src/ingestion/chain_ingestion_source_base.py: `ChainIngestionSourceBase`, and contracts/errors.py.
--
-- `split`, `strip`, `upper` and `lower` are Python's `raw.split(",")` and the methods of strings.
-- Times are whole nanoseconds.
pub mod Fallback
pub mod Live
pub mod Factory
use chainmonitor.Prelude.{
  ℕ, ◌-◌, ◌*◌, ◌/◌, min, String, sym, ap, Bool, false, not, ◌||◌, Option, none, some, List, [], ◌∷◌,
  str_eq, if◌then◌else◌, append,
}

pub record IngestionFetchError : Type 0 where
  pub reason : String
  pub detail : String
  pub chain_id : String
  pub trace_id : String

-- What a call of a source comes to: a value, an `IngestionFetchError`, or another exception.
pub data Fetched (A : Type 0) : Type 0 where
  returned : A → Fetched A
  fetch_failed : IngestionFetchError → Fetched A
  raised : Fetched A

abbrev pub minute : ℕ
minute = 60_000_000_000

-- `replace(second=0, microsecond=0)`
abbrev pub whole_minute : ℕ → ℕ
whole_minute t = t / minute * minute

unfoldable pub normalize_ts : ℕ → Option ℕ → ℕ
normalize_ts now none = whole_minute now
normalize_ts now (some ts_minute) = whole_minute ts_minute

-- `item in values`
unfoldable pub is_in : String → List String → Bool
is_in s [] = false
is_in s (t ∷ ts) = str_eq t s || is_in s ts

-- `[f(s.strip()) for s in pieces if s.strip()]`
unfoldable pub stripped : (String → String) → (String → String) → List String → List String
stripped strip f [] = []
stripped strip f (s ∷ ss) =
    let rest = stripped strip f ss in if str_eq (strip s) "" then rest else f (strip s) ∷ rest

unfoldable pub symbols :
    (String → List String) → (String → String) → (String → String) → String → List String
symbols split strip upper raw = stripped strip upper (split raw)

unfoldable pub token_id : (String → String) → String → String → String
token_id lower chain_id symbol = append chain_id (append "_" (lower symbol))
