-- ===== src/Baseline.antt =====
-- The epoll client of bench/baseline/http_epoll.h, which the benchmark compares with: the members of
-- class Http that socket_fn uses, and socket_fn.
pub mod Watched
pub mod Requests
pub mod Polls
pub mod Kept
pub mod Reactions
pub mod Served
pub mod Lifetime
use cofetch.Base.{ℕ, ◌+◌, Bool, false, ◌||◌, List, [], ◌∷◌, ◌==◌, if◌then◌else◌, get_or}

-- Calls of `epoll_ctl`, with the descriptor and the events.
pub data EpollCall : Type 0 where
  ctl_add : ℕ → ℕ → EpollCall
  ctl_mod : ℕ → ℕ → EpollCall
  ctl_del : ℕ → EpollCall

-- The members of Http that socket_fn uses; calls are newest first.
pub record Http : Type 0 where
  pub fd_set : List ℕ
  pub calls : List EpollCall

abbrev pub epollin : ℕ
epollin = 1

abbrev pub epollout : ℕ
epollout = 4

abbrev pub poll_remove : ℕ
poll_remove = 4

-- `e_table[epe]`; no index above 3 is ever looked up, as libcurl has none but `poll_remove`.
unfoldable pub e_table : ℕ → ℕ
e_table epe = get_or (0 ∷ epollin ∷ epollout ∷ (epollin + epollout) ∷ []) epe 0

unfoldable pub has : ℕ → List ℕ → Bool
has s [] = false
has s (k ∷ ks) = k == s || has s ks

unfoldable pub erase : ℕ → List ℕ → List ℕ
erase s [] = []
erase s (k ∷ ks) = if k == s then erase s ks else k ∷ erase s ks

unfoldable pub socket_fn : ℕ → ℕ → Http → Http
unfolding e_table has erase
socket_fn s epe http =
    if epe == poll_remove
    then record { fd_set = erase s http.fd_set; calls = ctl_del s ∷ http.calls }
    else if has s http.fd_set
    then record http { calls = ctl_mod s (e_table epe) ∷ http.calls }
    else record { fd_set = s ∷ http.fd_set; calls = ctl_add s (e_table epe) ∷ http.calls }

-- Http()
unfoldable pub init : Http
init = record { fd_set = []; calls = [] }
