-- ===== src/Pipeline/Scheduler/Windows.antt =====
-- Which windows are due.
use chainmonitor.Prelude.{
  ℕ, zero, suc, ◌+◌, ◌-◌, ◌*◌, ◌≤◌, ◌<◌, ◌≡◌, ◌∙◌, Bool, false, ◌||◌, some, List, [], ◌∷◌, arith,
  leb, ◌==◌, length, option_holds,
}
use chainmonitor.Pipeline.Scheduler.{
  ChainPipelineScheduler, windows_from, drop, trim, build_due_windows,
}

-- Whether n is one of some windows.
unfoldable pub has : ℕ → List ℕ → Bool
has n [] = false
has n (x ∷ xs) = (n == x) || has n xs

step_again : (next step k : ℕ) → next + suc k * step ≡ next + step + k * step
step_again next step k = grind arith

-- The loop ends before its fuel does: it gives the windows at the steps from `next` on that are not
-- after `current`, and it gives each of them.
pub windows_from-has :
    (fuel step next current k : ℕ)
    → current < next + fuel
    → 1 ≤ step
    → has (next + k * step) (windows_from fuel step next current) ≡ leb (next + k * step) current
unfolding has windows_from
windows_from-has zero step next current k enough some_step = ground arith
windows_from-has (suc fuel) step next current zero enough some_step = ground arith
windows_from-has (suc fuel) step next current (suc k) enough some_step =
    let rest = windows_from-has fuel step (next + step) current k in
    let shift : next + suc k * step ≡ next + step + k * step = step_again next step k in
    rw shift (ground (arith, rest))

length-drop : (n : ℕ) (xs : List ℕ) → length (drop n xs) ≡ length xs - n
length-drop zero xs = omega arith
length-drop (suc n) [] = omega arith
length-drop (suc n) (x ∷ xs) = length-drop n xs ∙ omega arith

trim-length :
    (catchup current : ℕ) (xs : List ℕ)
    → 1 ≤ catchup
    → (1 ≤ length (trim catchup current xs)) × (length (trim catchup current xs) ≤ catchup)
unfolding trim
trim-length catchup current [] h = (omega arith, omega arith)
trim-length catchup current (x ∷ xs) h =
    ground (arith, length-drop (length (x ∷ xs) - catchup) (x ∷ xs))

one_window :
    (catchup current : ℕ)
    → 1 ≤ catchup
    → (1 ≤ length (current ∷ [])) × (length (current ∷ []) ≤ catchup)
one_window catchup current h = (omega arith, omega arith)

trim-few :
    (catchup current : ℕ) (xs : List ℕ)
    → 1 ≤ length xs
    → length xs ≤ catchup
    → trim catchup current xs ≡ xs
unfolding trim
trim-few catchup current [] some_window few = absurd (omega arith)
trim-few catchup current (x ∷ xs) some_window few = ground arith

length-windows_from :
    (fuel step next current : ℕ)
    → 1 ≤ step
    → length (windows_from fuel step next current) ≤ suc current - next
unfolding windows_from
length-windows_from zero step next current h = omega arith
length-windows_from (suc fuel) step next current h =
    ground (arith, length-windows_from fuel step (next + step) current h)

windows_from-nonempty :
    (fuel step next current : ℕ)
    → next ≤ current
    → 1 ≤ length (windows_from (suc fuel) step next current)
unfolding windows_from
windows_from-nonempty fuel step next current h = ground arith

-- A round has at least one window, and at most as many as may be caught up, if that is one or more.
pub build_due_windows-length :
    (current : ℕ) (s : ChainPipelineScheduler)
    → 1 ≤ s.catchup_windows
    → (1 ≤ length (build_due_windows current s))
      × (length (build_due_windows current s) ≤ s.catchup_windows)
unfolding build_due_windows
build_due_windows-length current s h =
    option_holds (λ (ws : List ℕ). (1 ≤ length ws) × (length ws ≤ s.catchup_windows))
      s.last_window_ts (λ _. one_window s.catchup_windows current h)
      (λ last _. trim-length s.catchup_windows current _ h)

few_windows :
    (ws : List ℕ) (last step current catchup : ℕ)
    → length ws ≤ suc current - (last + step)
    → current - last < catchup
    → 1 ≤ step
    → last + step ≤ current
    → length ws ≤ catchup
few_windows ws last step current catchup h few some_step due = omega arith

-- Where a step has passed since the last window, and fewer minutes than there are windows to catch
-- up, a window at whole steps after the last is due exactly when it is not after now: none of them
-- is missed.
pub build_due_windows-has :
    (current last k : ℕ) (s : ChainPipelineScheduler)
    → s.last_window_ts ≡ some last
    → 1 ≤ s.window_step_minutes
    → last + s.window_step_minutes ≤ current
    → current - last < s.catchup_windows
    → has (last + s.window_step_minutes + k * s.window_step_minutes) (build_due_windows current s)
      ≡ leb (last + s.window_step_minutes + k * s.window_step_minutes) current
unfolding build_due_windows
build_due_windows-has current last k s known some_step due few =
    let step = s.window_step_minutes in
    let next = last + step in
    let fuel = suc (current - next) in
    let all = windows_from fuel step next current in
    let kept =
      trim-few s.catchup_windows current all
        (windows_from-nonempty (current - next) step next current due)
        (few_windows all last step current s.catchup_windows
          (length-windows_from fuel step next current some_step) few some_step due) in
    rw (known, kept) (windows_from-has fuel step next current k (omega arith) some_step)
