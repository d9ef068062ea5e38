-- ===== src/Base/Threads.antt =====
-- Threads over a shared state, interleaved in any order: one of them moves at a time.
use Prim.Native.Nat.{ℕ, zero, suc, ◌+◌, ◌*◌, ◌≤◌}
use mathlib.Core.Path.{◌≡◌, refl, ap, ◌∙◌}
use mathlib.Core.List.{List, [], ◌∷◌}
use native.Mathlib.Omega.{arith}
use cofetch.Base.Lists.{length}

-- The sum of a number for each thread.
abbrev pub sum_of {ℓ} : {W : Type ℓ} → (W → ℕ) → List W → ℕ
sum_of f [] = 0
sum_of f (w ∷ ws) = f w + sum_of f ws

pub sum_of-le {ℓ} :
    {W : Type ℓ} (f g : W → ℕ) (ws : List W) → ((w : W) → f w ≤ g w) → sum_of f ws ≤ sum_of g ws
sum_of-le f g [] h = omega arith
sum_of-le f g (w ∷ ws) h = omega (arith, h w, sum_of-le f g ws h)

pub sum_of-bounded {ℓ} :
    {W : Type ℓ} (f : W → ℕ) (m : ℕ) (ws : List W)
    → ((w : W) → f w ≤ m)
    → sum_of f ws ≤ length ws * m
sum_of-bounded f m [] h = omega arith
sum_of-bounded f m (w ∷ ws) h = grind (arith, h w, sum_of-bounded f m ws h)

-- As many threads, all at the same place.
abbrev pub replicate {ℓ} : {W : Type ℓ} → ℕ → W → List W
replicate zero w = []
replicate (suc n) w = w ∷ replicate n w

pub sum_of-replicate {ℓ} :
    {W : Type ℓ} (f : W → ℕ) (n : ℕ) (w : W) → sum_of f (replicate n w) ≡ n * f w
sum_of-replicate f zero w = omega arith
sum_of-replicate f (suc n) w = grind (arith, sum_of-replicate f n w)

pub length-replicate {ℓ} : {W : Type ℓ} (n : ℕ) (w : W) → length (replicate n w) ≡ n
length-replicate zero w = refl
length-replicate (suc n) w = ap suc (length-replicate n w)

module _ {S W : Type 0} (Move : S → W → S → W → Type 0) where
  -- Some thread moves.
  pub data Step (s : S) : List W → S → List W → Type 0 where
    here : {w w' : W} {ws : List W} {s' : S} → Move s w s' w' → Step s (w ∷ ws) s' (w' ∷ ws)
    there : {w : W} {ws ws' : List W} {s' : S} → Step s ws s' ws' → Step s (w ∷ ws) s' (w ∷ ws')

  -- `Runs start begin k s ws`: k steps lead from this state and these threads to `s` and `ws`.
  pub data Runs (start : S) (begin : List W) : ℕ → S → List W → Type 0 where
    begun : Runs start begin 0 start begin
    moved :
        {k : ℕ} {s s' : S} {ws ws' : List W}
        → Runs start begin k s ws
        → Step s ws s' ws'
        → Runs start begin (suc k) s' ws'

  -- No thread can move.
  abbrev pub Still : S → List W → Type 0
  Still s ws = (s' : S) (ws' : List W) → ¬ (Step s ws s' ws')

  -- The thread that moves, and the others.
  pub record Turn (s : S) (ws : List W) (s' : S) (ws' : List W) : Type 0 where
    pub from : W
    pub to : W
    pub others : List W
    pub move : Move s from s' to
    pub before : (f : W → ℕ) → sum_of f ws ≡ f from + sum_of f others
    pub after : (f : W → ℕ) → sum_of f ws' ≡ f to + sum_of f others

  pub Step-Turn : {s s' : S} {ws ws' : List W} → Step s ws s' ws' → Turn s ws s' ws'
  Step-Turn (here {w} {w'} {ws} move) = record {
    from = w;
    to = w';
    others = ws;
    move = move;
    before = λ f. refl;
    after = λ f. refl;
  }
  Step-Turn (there {w} step) =
      let t = Step-Turn step in
      record {
        from = t.from;
        to = t.to;
        others = w ∷ t.others;
        move = t.move;
        before = λ f. omega (arith, t.before f);
        after = λ f. omega (arith, t.after f);
      }

  Step-length : {s s' : S} {ws ws' : List W} → Step s ws s' ws' → length ws' ≡ length ws
  Step-length (here move) = refl
  Step-length (there step) = ap suc (Step-length step)

  pub Runs-length :
      {start : S} {begin : List W} {s : S} {ws : List W} {k : ℕ}
      → Runs start begin k s ws
      → length ws ≡ length begin
  Runs-length begun = refl
  Runs-length (moved runs step) = Step-length step ∙ Runs-length runs
