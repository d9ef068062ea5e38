-- ===== src/Tests/Threads.antt =====
-- Clients made and destroyed on one thread, and on two.
use cofetch.Base.{ℕ, ◌*◌, ◌≡◌, ◌≤◌, refl, true, false, [], ◌∷◌}
use cofetch.Base.Threads.{begun, moved, here, there, Still, replicate, sum_of}
use cofetch.Client.Globals.Complete.{Clients-complete}
use cofetch.Client.Globals.{
  Process, in_init, living, over, Move, lock_init, call_init, init_returns, unlock_init, multi_init,
  multi_cleanup, lock_cleanup, call_cleanup, cleanup_returns, unlock_cleanup, Clients,
  Clients-exclusive, inside, fresh_process,
}

-- The first client is there, and the second is being made.
abbrev second_in_init : Process
second_in_init = record { locked = true; refs = 1; multis = 1 }

two_threads : Clients 2 7 second_in_init (living ∷ in_init ∷ [])
two_threads =
    moved
      (moved
        (moved
          (moved
            (moved (moved (moved begun (here (lock_init refl))) (here call_init))
              (here init_returns))
            (here unlock_init))
          (here multi_init))
        (there (here (lock_init refl))))
      (there (here call_init))

Clients-exclusive_example : sum_of inside (living ∷ in_init ∷ []) ≤ 1
Clients-exclusive_example = Clients-exclusive 2 two_threads

one_client : Clients 1 10 fresh_process (over ∷ [])
one_client =
    moved
      (moved
        (moved
          (moved
            (moved
              (moved
                (moved
                  (moved (moved (moved begun (here (lock_init refl))) (here call_init))
                    (here init_returns))
                  (here unlock_init))
                (here multi_init))
              (here multi_cleanup))
            (here (lock_cleanup refl)))
          (here call_cleanup))
        (here cleanup_returns))
      (here unlock_cleanup)

one_client-Still : Still Move fresh_process (over ∷ [])
one_client-Still s' ws' (here move) = elim move [ ]
one_client-Still s' ws' (there step) = elim step [ ]

Clients-complete_example :
    (over ∷ [] ≡ replicate 1 over)
    × ◌≡◌ {A = ℕ} 10 (1 * 10)
    × (fresh_process.locked ≡ false)
    × (fresh_process.refs ≡ 0)
    × (fresh_process.multis ≡ 0)
Clients-complete_example = Clients-complete 1 one_client one_client-Still
