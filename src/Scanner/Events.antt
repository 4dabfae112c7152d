-- ===== src/Scanner/Events.antt =====
-- src/scanner/events.py: the events and the bus. A handler changes a state of type W and may raise;
-- what it did before raising stays done.
pub mod Delivery
use chainmonitor.Prelude.{
  ℕ, suc, ◌+◌, ◌-◌, ◌/◌, String, sym, Bool, true, false, Option, none, List, [], ◌∷◌, ◌++◌,
  if◌then◌else◌,
}
use chainmonitor.Scanner.Models.{Reason, Breakdown, Level}

pub data Event (F : Type 0) : Type 0 where
  trending_fetched : (chain interval : String) (token_count duration : ℕ) (success : Bool) → Event F
  token_security_checked : (chain address symbol : String) (duration : ℕ) (success : Bool) → Event F
  token_processed :
      (chain interval : String) (scanned_at : ℕ) (address symbol : String) (filter_passed : Bool)
      (filter_reason : Reason F) (score_total : Option ℕ) (score_breakdown : Option Breakdown)
      (signal_emitted : Bool) (signal_level : Option Level) (cooldown_skipped : Bool)
      → Event F
  chain_scan_completed :
      (chain interval : String) (total_duration token_count signal_count : ℕ) → Event F

-- `type(event)`
pub data EventType : Type 0 where
  trending security processed completed : EventType

unfoldable pub type_of : {F : Type 0} → Event F → EventType
type_of (trending_fetched _ _ _ _ _) = trending
type_of (token_security_checked _ _ _ _ _) = security
type_of (token_processed _ _ _ _ _ _ _ _ _ _ _ _) = processed
type_of (chain_scan_completed _ _ _ _ _) = completed

abbrev pub same_type : EventType → EventType → Bool
same_type trending trending = true
same_type security security = true
same_type processed processed = true
same_type completed completed = true
same_type _ _ = false

-- A handler returns the new state, and whether it raised.
abbrev pub EventHandler : Type 0 → Type 0 → Type 0
EventHandler F W = Event F → W → W × Bool

-- The handlers of each type, in the order of their subscription; none under a missing key.
pub record EventBus (F W : Type 0) : Type 0 where
  pub handlers : EventType → List (EventHandler F W)

module _ {F W : Type 0} where
  abbrev pub empty : EventBus F W
  empty = record { handlers = λ t. [] }

  unfoldable pub subscribe : EventType → EventHandler F W → EventBus F W → EventBus F W
  subscribe type handler bus = record {
    handlers = λ t. if same_type type t then bus.handlers t ++ handler ∷ [] else bus.handlers t;
  }

  -- The loop of `publish`: an exception is logged, and the next handler runs.
  unfoldable pub deliver : List (EventHandler F W) → Event F → W → W
  deliver [] event w = w
  deliver (handler ∷ rest) event w = let (w', raised) = handler event w in deliver rest event w'

  unfoldable pub publish : EventBus F W → Event F → W → W
  unfolding deliver
  publish bus event w = deliver (bus.handlers (type_of event)) event w
