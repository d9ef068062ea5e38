-- ===== src/Client/Globals.antt =====
-- The process-wide state of libcurl: curl_global_init in the constructor of Client and
-- curl_global_cleanup in its destructor, under global_mutex, with one client to a thread.
pub mod Complete
use cofetch.Base.{ℕ, suc, ◌+◌, ◌-◌, ◌≡◌, ◌≤◌, Bool, true, false, List, if◌then◌else◌, arith}
use cofetch.Base.Threads.{
  sum_of, sum_of-le, sum_of-replicate, replicate, Runs, begun, moved, Step-Turn,
}

-- Where the thread of a client is: in the constructor up to `curl_multi_init`, between the constructor
-- and the destructor, or in the destructor. `entering` and `leaving` have the lock, `in_init` and
-- `in_cleanup` are inside a call of libcurl.
pub data Stage : Type 0 where
  unmade : Stage
  entering : Stage
  in_init : Stage
  initialised : Stage
  opening : Stage
  living : Stage
  closing : Stage
  leaving : Stage
  in_cleanup : Stage
  cleaned_up : Stage
  over : Stage

-- `refs` is the count inside libcurl, which is initialised while it is not 0; `multis` are the multi
-- handles that there are.
pub record Process : Type 0 where
  pub locked : Bool
  pub refs : ℕ
  pub multis : ℕ

-- A thread's next step.
pub data Move : Process → Stage → Process → Stage → Type 0 where
  lock_init : {s : Process} → s.locked ≡ false → Move s unmade (record s { locked = true }) entering
  call_init : {s : Process} → Move s entering s in_init
  init_returns : {s : Process} → Move s in_init (record s { refs = s.refs + 1 }) initialised
  unlock_init : {s : Process} → Move s initialised (record s { locked = false }) opening
  multi_init : {s : Process} → Move s opening (record s { multis = s.multis + 1 }) living
  multi_cleanup : {s : Process} → Move s living (record s { multis = s.multis - 1 }) closing
  lock_cleanup :
      {s : Process} → s.locked ≡ false → Move s closing (record s { locked = true }) leaving
  call_cleanup : {s : Process} → Move s leaving s in_cleanup
  cleanup_returns : {s : Process} → Move s in_cleanup (record s { refs = s.refs - 1 }) cleaned_up
  unlock_cleanup : {s : Process} → Move s cleaned_up (record s { locked = false }) over

abbrev pub fresh_process : Process
fresh_process = record { locked = false; refs = 0; multis = 0 }

-- Has the lock.
abbrev pub holding : Stage → ℕ
holding entering = 1
holding in_init = 1
holding initialised = 1
holding leaving = 1
holding in_cleanup = 1
holding cleaned_up = 1
holding unmade = 0
holding opening = 0
holding living = 0
holding closing = 0
holding over = 0

-- Is inside curl_global_init or curl_global_cleanup.
abbrev pub inside : Stage → ℕ
inside in_init = 1
inside in_cleanup = 1
inside unmade = 0
inside entering = 0
inside initialised = 0
inside opening = 0
inside living = 0
inside closing = 0
inside leaving = 0
inside cleaned_up = 0
inside over = 0

-- Has initialised libcurl and not cleaned it up.
abbrev pub counted : Stage → ℕ
counted initialised = 1
counted opening = 1
counted living = 1
counted closing = 1
counted leaving = 1
counted in_cleanup = 1
counted unmade = 0
counted entering = 0
counted in_init = 0
counted cleaned_up = 0
counted over = 0

-- Has a multi handle.
abbrev pub alive : Stage → ℕ
alive living = 1
alive unmade = 0
alive entering = 0
alive in_init = 0
alive initialised = 0
alive opening = 0
alive closing = 0
alive leaving = 0
alive in_cleanup = 0
alive cleaned_up = 0
alive over = 0

-- How many steps a thread has made.
abbrev pub steps : Stage → ℕ
steps unmade = 0
steps entering = 1
steps in_init = 2
steps initialised = 3
steps opening = 4
steps living = 5
steps closing = 6
steps leaving = 7
steps in_cleanup = 8
steps cleaned_up = 9
steps over = 10

pub record Inv (k : ℕ) (s : Process) (ws : List Stage) : Type 0 where
  pub held : sum_of holding ws ≡ (if s.locked then 1 else 0)
  pub initialised_by : s.refs ≡ sum_of counted ws
  pub opened_by : s.multis ≡ sum_of alive ws
  pub made_steps : k ≡ sum_of steps ws

Move-Inv :
    {k : ℕ} {s s' : Process} {ws ws' : List Stage} {w w' : Stage} (others : List Stage)
    → Move s w s' w'
    → Inv k s ws
    → ((f : Stage → ℕ) → sum_of f ws ≡ f w + sum_of f others)
    → ((f : Stage → ℕ) → sum_of f ws' ≡ f w' + sum_of f others)
    → Inv (suc k) s' ws'
Move-Inv others (lock_init free) v b a =
    ground (arith, b holding, a holding, b counted, a counted, b alive, a alive, b steps, a steps)
Move-Inv others (lock_cleanup free) v b a =
    ground (arith, b holding, a holding, b counted, a counted, b alive, a alive, b steps, a steps)
Move-Inv others move v b a =
    ground (arith, b holding, a holding, b counted, a counted, b alive, a alive, b steps, a steps)

-- Clients of this many threads, each with a client to make and to destroy.
abbrev pub Clients : ℕ → ℕ → Process → List Stage → Type 0
Clients n k s ws = Runs Move fresh_process (replicate n unmade) k s ws

pub Clients-Inv : (n : ℕ) {k : ℕ} {s : Process} {ws : List Stage} → Clients n k s ws → Inv k s ws
Clients-Inv n begun = record {
  held = omega (arith, sum_of-replicate holding n unmade);
  initialised_by = omega (arith, sum_of-replicate counted n unmade);
  opened_by = omega (arith, sum_of-replicate alive n unmade);
  made_steps = omega (arith, sum_of-replicate steps n unmade);
}
Clients-Inv n (moved runs step) =
    let t = Step-Turn Move step in Move-Inv t.others t.move (Clients-Inv n runs) t.before t.after

inside-le-holding : (w : Stage) → inside w ≤ holding w
inside-le-holding w = ground arith

-- In whatever order threads make and destroy clients, no two of them are inside curl_global_init or
-- curl_global_cleanup at once.
pub Clients-exclusive :
    (n : ℕ) {k : ℕ} {s : Process} {ws : List Stage} → Clients n k s ws → sum_of inside ws ≤ 1
Clients-exclusive n {s = s} {ws = ws} runs =
    let held = (Clients-Inv n runs).held in
    let below = sum_of-le inside holding ws inside-le-holding in ground arith

alive-le-counted : (w : Stage) → alive w ≤ counted w
alive-le-counted w = ground arith

-- In whatever order threads make and destroy clients, there are at most as many multi handles as
-- initialisations of libcurl that are not cleaned up: libcurl is initialised while any client is there.
pub Clients-initialised :
    (n : ℕ) {k : ℕ} {s : Process} {ws : List Stage} → Clients n k s ws → s.multis ≤ s.refs
Clients-initialised n {ws = ws} runs =
    let v = Clients-Inv n runs in
    let below = sum_of-le alive counted ws alive-le-counted in omega arith
