-- ===== src/Resilience/Backoff/Registry.antt =====
-- `BackoffRegistry`: one shared guard per name, held by reference.
-- `strip_lower` is `str.strip` and then `str.lower`.
use chainmonitor.Dict.{Dict, get, put, get-put}
use mathlib.Core.List.{append-nil}
use chainmonitor.Prelude.{
  ℕ, String, ◌≡◌, inl, inr, none, some, List, [], ◌∷◌, ◌++◌, arith, eq_iff, Option-cases, length,
}
use chainmonitor.Resilience.Backoff.{BackoffGuard, init}

pub record BackoffRegistry : Type 0 where
  pub objects : List BackoffGuard
  pub guards : Dict ℕ

module _ (strip_lower : String → String) where
  unfoldable pub get_guard : String → BackoffRegistry → ℕ × BackoffRegistry
  get_guard name r = elim (get r.guards (strip_lower name)) [
    | none ↦ (
      length r.objects,
      record {
        objects = r.objects ++ init ∷ [];
        guards = put r.guards (strip_lower name) (length r.objects);
      },
    )
    | some ref ↦ (ref, r)
  ]

  -- Two names with one key share one guard: the second call returns the object of the first and
  -- changes nothing. The objects that were there are the first ones of the store.
  pub get_guard-shared :
      (name other : String) (r : BackoffRegistry)
      → strip_lower other ≡ strip_lower name
      → let got = get_guard name r in
        (get_guard other got.1 ≡ got)
        × ((made : List BackoffGuard) × (got.1.objects ≡ r.objects ++ made))
  unfolding get_guard
  get_guard-shared name other r same = elim (Option-cases (get r.guards (strip_lower name))) [
    | inl e ↦ (
      ground (
        arith,
        get-put r.guards (strip_lower name) (strip_lower other) (length r.objects),
        eq_iff (strip_lower name) (strip_lower other),
      ),
      (init ∷ [], ground arith),
    )
    | inr (ref, e) ↦ (ground arith, ([], ground (arith, append-nil r.objects)))
  ]
