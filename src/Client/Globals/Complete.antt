-- ===== src/Client/Globals/Complete.antt =====
-- Clients on threads: all of them come to their end.
use cofetch.Base.{
  ℕ, ◌∙◌, ap, ◌*◌, ◌≡◌, refl, false, List, [], ◌∷◌, length, arith, Bool-cases, inl, inr,
}
use cofetch.Base.Threads.{
  sum_of, sum_of-replicate, replicate, length-replicate, here, there, Still, Runs-length,
}
use cofetch.Client.Globals.{
  Stage, unmade, entering, in_init, initialised, opening, living, closing, leaving, in_cleanup,
  cleaned_up, over, Process, Move, lock_init, call_init, init_returns, unlock_init, multi_init,
  multi_cleanup, lock_cleanup, call_cleanup, cleanup_returns, unlock_cleanup, holding, counted,
  alive, steps, Clients, Clients-Inv,
}

-- The thread that is named has no move.
abbrev Stuck : Process → Stage → Type 0
Stuck s w = (s' : Process) (w' : Stage) → ¬ (Move s w s' w')

-- A thread that cannot move waits for the lock, or is done.
Stuck-holding : {s : Process} (w : Stage) → Stuck s w → holding w ≡ 0
Stuck-holding entering stuck = absurd (stuck _ _ call_init)
Stuck-holding in_init stuck = absurd (stuck _ _ init_returns)
Stuck-holding initialised stuck = absurd (stuck _ _ unlock_init)
Stuck-holding leaving stuck = absurd (stuck _ _ call_cleanup)
Stuck-holding in_cleanup stuck = absurd (stuck _ _ cleanup_returns)
Stuck-holding cleaned_up stuck = absurd (stuck _ _ unlock_cleanup)
Stuck-holding unmade stuck = refl
Stuck-holding opening stuck = refl
Stuck-holding living stuck = refl
Stuck-holding closing stuck = refl
Stuck-holding over stuck = refl

Stuck-over : {s : Process} (w : Stage) → s.locked ≡ false → Stuck s w → w ≡ over
Stuck-over unmade free stuck = absurd (stuck _ _ (lock_init free))
Stuck-over entering free stuck = absurd (stuck _ _ call_init)
Stuck-over in_init free stuck = absurd (stuck _ _ init_returns)
Stuck-over initialised free stuck = absurd (stuck _ _ unlock_init)
Stuck-over opening free stuck = absurd (stuck _ _ multi_init)
Stuck-over living free stuck = absurd (stuck _ _ multi_cleanup)
Stuck-over closing free stuck = absurd (stuck _ _ (lock_cleanup free))
Stuck-over leaving free stuck = absurd (stuck _ _ call_cleanup)
Stuck-over in_cleanup free stuck = absurd (stuck _ _ cleanup_returns)
Stuck-over cleaned_up free stuck = absurd (stuck _ _ unlock_cleanup)
Stuck-over over free stuck = refl

Still-holding : {s : Process} (ws : List Stage) → Still Move s ws → sum_of holding ws ≡ 0
Still-holding [] still = refl
Still-holding {s} (w ∷ ws) still =
    let here_waits = Stuck-holding {s = s} w (λ s' w' m. still _ _ (here m)) in
    let rest = Still-holding {s = s} ws (λ s' ws' st. still _ _ (there st)) in omega arith

Still-over :
    {s : Process} (ws : List Stage)
    → s.locked ≡ false
    → Still Move s ws
    → ws ≡ replicate (length ws) over
Still-over [] free still = refl
Still-over {s} (w ∷ ws) free still =
    let at_end = Stuck-over {s = s} w free (λ s' w' m. still _ _ (here m)) in
    let rest = Still-over {s = s} ws free (λ s' ws' st. still _ _ (there st)) in cc

-- However threads that make a client each and destroy it take turns, some thread can move until all are
-- done; this takes ten steps for each; and then the lock is free and libcurl is cleaned up, as often as
-- it was initialised.
pub Clients-complete :
    (n : ℕ) {k : ℕ} {s : Process} {ws : List Stage}
    → Clients n k s ws
    → Still Move s ws
    → (ws ≡ replicate n over) × (k ≡ n * 10) × (s.locked ≡ false) × (s.refs ≡ 0) × (s.multis ≡ 0)
Clients-complete n {k} {s} {ws} runs still =
    let v = Clients-Inv n runs in
    let none_holds = Still-holding {s = s} ws still in
    let free : s.locked ≡ false = elim (Bool-cases s.locked) [
      | inl taken ↦ absurd (ground (arith, v.held))
      | inr f ↦ f
    ] in
    let many = Runs-length Move runs ∙ length-replicate n unmade in
    let all : ws ≡ replicate n over =
      Still-over {s = s} ws free still ∙ ap (λ m. replicate m over) many in
    let sums : (f : Stage → ℕ) → sum_of f ws ≡ n * f over =
      λ f. ap (sum_of f) all ∙ sum_of-replicate f n over in
    (
      all,
      omega (arith, v.made_steps, sums steps),
      free,
      omega (arith, v.initialised_by, sums counted),
      omega (arith, v.opened_by, sums alive),
    )
