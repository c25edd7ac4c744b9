-- ===== src/Guard/Cooldown/Generic.antt =====
-- internal/guard/observe.go: generic 429 responses open the breaker at the threshold, for the
-- cooldowns of the configuration.
use cpa_antigravity_quota_gu.Prelude.{
  ℕ, suc, ◌+◌, ◌≤◌, ◌<◌, ◌≡◌, ◌⊎◌, Option, none, some, List, [], ◌∷◌, arith, pos, ◌≤ℤ◌, inc_int,
  max_int64, length, ltb, if◌then◌else◌,
}
use cpa_antigravity_quota_gu.Guard.Types.{Time, add_time, sub_time, opened, closed, generic_429}
use cpa_antigravity_quota_gu.Guard.Records.{Config, Entry}
use cpa_antigravity_quota_gu.Guard.Breaker.{open_entry}
use cpa_antigravity_quota_gu.Guard.Observe.{count_generic, generic_recover_at, observe_generic}
use cpa_antigravity_quota_gu.Guard.Invariant.{IsValidConfig}

-- With a valid configuration the recovery time that a generic 429 sets is no earlier than the end
-- of the initial cooldown, and no later than that of the longest unless the response announces it.
pub generic_recover_at_bounds :
    (c : Config) (at : Time) (reset : Option Time) (x : Entry)
    → IsValidConfig c
    → let t = generic_recover_at c at reset x in
      (add_time at c.generic_429_initial_cooldown ≤ t)
      × ((t ≤ add_time at c.generic_429_max_cooldown) ⊎ (reset ≡ some t))
unfolding generic_recover_at
generic_recover_at_bounds c at reset x v = ground arith

-- A generic failure: when it is observed, and the reset that its response announces, if any.
pub record Failure : Type 0 where
  pub at : Time
  pub reset : Option Time

-- A run of failures: each observed no earlier than the last and within the window of it.
abbrev pub InWindow : Config → Time → List Failure → Type 0
InWindow c last [] = Unit {0}
InWindow c last (f ∷ fs) =
    (last ≤ f.at) × (sub_time f.at last ≤ℤ c.generic_429_window) × InWindow c f.at fs

pub observe_all : Config → List Failure → Entry → Entry
observe_all c [] x = x
observe_all c (f ∷ fs) x = observe_all c fs (observe_generic c f.at f.reset x)

-- The later of a time and of one that may be absent.
abbrev later_of : Time → Option Time → Time
later_of t none = t
later_of t (some r) = if ltb t r then r else t

-- A closed entry with n failures, the last at the time given.
pub record Failing (n : ℕ) (last : Time) (x : Entry) : Type 0 where
  pub quiet : x.state ≡ closed
  pub counted : x.failure_count ≡ pos n
  pub last_at : x.last_failure_at ≡ last

Failing-step :
    (c : Config) (n k : ℕ) (last t : Time) (reset : Option Time) (x : Entry)
    → c.generic_429_threshold ≡ pos k
    → suc n < k
    → k ≤ max_int64
    → 0 < last
    → last ≤ t
    → sub_time t last ≤ℤ c.generic_429_window
    → Failing n last x
    → Failing (suc n) t (observe_generic c t reset x)
unfolding observe_generic count_generic inc_int
Failing-step c n k last t reset x th lt big pl le win f = ground arith

-- What an opened breaker is after the failure that opened it.
pub record OpenedAt (c : Config) (t : Time) (reset : Option Time) (y : Entry) : Type 0 where
  pub open_now : y.state ≡ opened
  pub generic : y.reason ≡ generic_429
  pub since : y.opened_at ≡ t
  pub until : y.recover_at ≡ later_of (add_time t c.generic_429_initial_cooldown) reset

Failing-opens :
    (c : Config) (n k : ℕ) (last t : Time) (reset : Option Time) (x : Entry)
    → c.generic_429_threshold ≡ pos k
    → suc n ≡ k
    → k ≤ max_int64
    → 0 < last
    → last ≤ t
    → sub_time t last ≤ℤ c.generic_429_window
    → Failing n last x
    → OpenedAt c t reset (observe_generic c t reset x)
unfolding observe_generic count_generic inc_int generic_recover_at open_entry
Failing-opens c n k last t reset x th eq big pl le win f = ground arith

abbrev pub last_failure : Failure → List Failure → Failure
last_failure f [] = f
last_failure f (g ∷ gs) = last_failure g gs

module _ (c : Config) (k : ℕ) (threshold : c.generic_429_threshold ≡ pos k)
    (small : k ≤ max_int64) where
  run_below :
      (n : ℕ) (last : Time) (f : Failure) (fs : List Failure) (x : Entry)
      → 0 < last
      → InWindow c last (f ∷ fs)
      → suc (n + length fs) < k
      → Failing n last x
      → Failing (suc (n + length fs)) (last_failure f fs).at (observe_all c (f ∷ fs) x)
  unfolding observe_all
  run_below n last f [] x h w lt s =
      let next = Failing-step c n k last f.at f.reset x threshold (omega arith) small h w.0 w.1 s in
      record { quiet = next.quiet; counted = ground arith; last_at = next.last_at }
  run_below n last f (g ∷ gs) x h w lt s =
      let next = Failing-step c n k last f.at f.reset x threshold (omega arith) small h w.0 w.1 s in
      let rest =
        run_below (suc n) f.at g gs (observe_generic c f.at f.reset x) (omega arith) w.2
          (omega arith) next in
      record { quiet = rest.quiet; counted = ground arith; last_at = rest.last_at }

  run_opens :
      (n : ℕ) (last : Time) (f : Failure) (fs : List Failure) (x : Entry)
      → 0 < last
      → InWindow c last (f ∷ fs)
      → suc (n + length fs) ≡ k
      → Failing n last x
      → OpenedAt c (last_failure f fs).at (last_failure f fs).reset (observe_all c (f ∷ fs) x)
  unfolding observe_all
  run_opens n last f [] x h w eq s =
      Failing-opens c n k last f.at f.reset x threshold (omega arith) small h w.0 w.1 s
  run_opens n last f (g ∷ gs) x h w eq s =
      run_opens (suc n) f.at g gs (observe_generic c f.at f.reset x) (omega arith) w.2 (omega arith)
        (Failing-step c n k last f.at f.reset x threshold (omega arith) small h w.0 w.1 s)

  first_failure :
      (f : Failure) (x : Entry)
      → x.state ≡ closed
      → x.last_failure_at ≡ 0
      → 1 < k
      → Failing 1 f.at (observe_generic c f.at f.reset x)
  unfolding observe_generic count_generic
  first_failure f x q l h = ground arith

  first_opens :
      (f : Failure) (x : Entry)
      → x.state ≡ closed
      → x.last_failure_at ≡ 0
      → k ≡ 1
      → OpenedAt c f.at f.reset (observe_generic c f.at f.reset x)
  unfolding observe_generic count_generic generic_recover_at open_entry
  first_opens f x q l h = ground arith

  -- Fewer generic failures than the threshold, each in the window of the one before, leave a closed
  -- account without a failure closed, and are all counted, whatever resets their responses
  -- announce.
  pub below_threshold_closed :
      (f : Failure) (fs : List Failure) (x : Entry)
      → x.state ≡ closed
      → x.last_failure_at ≡ 0
      → 0 < f.at
      → InWindow c f.at fs
      → suc (length fs) < k
      → Failing (suc (length fs)) (last_failure f fs).at (observe_all c (f ∷ fs) x)
  unfolding observe_all
  below_threshold_closed f [] x q l h w lt = first_failure f x q l (omega arith)
  below_threshold_closed f (g ∷ gs) x q l h w lt =
      let rest =
        run_below 1 f.at g gs (observe_generic c f.at f.reset x) h w (omega arith)
          (first_failure f x q l (omega arith)) in
      record { quiet = rest.quiet; counted = ground arith; last_at = rest.last_at }

  -- As many generic failures as the threshold, each in the window of the one before, open a closed
  -- account without a failure: until the initial cooldown from the last of them is over, or until
  -- the reset that its response announces, whichever is later. Earlier resets have no effect.
  pub threshold_opens :
      (f : Failure) (fs : List Failure) (x : Entry)
      → x.state ≡ closed
      → x.last_failure_at ≡ 0
      → 0 < f.at
      → InWindow c f.at fs
      → suc (length fs) ≡ k
      → OpenedAt c (last_failure f fs).at (last_failure f fs).reset (observe_all c (f ∷ fs) x)
  unfolding observe_all
  threshold_opens f [] x q l h w eq = first_opens f x q l (omega arith)
  threshold_opens f (g ∷ gs) x q l h w eq =
      run_opens 1 f.at g gs (observe_generic c f.at f.reset x) h w (omega arith)
        (first_failure f x q l (omega arith))
