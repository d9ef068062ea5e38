-- ===== src/Tests/Requests.antt =====
-- Two requests on a pool of one handle, one of them done; its callback makes a third.
use mathlib.Core.HLevel.{⊥_prop}
use mathlib.Core.Logic.Or
use mathlib.Core.List.{eq-or-mem_of_mem-cons, Nodup, Nodup-cons, Nodup-nil, not-mem-nil}
use cofetch.Base.{take, ◌+◌, map, true, ◌≢◌, ℕ, List, [], ◌∷◌, Perm, Mem, pos, refl, arith, ◌≡◌}
use cofetch.Baseline.Polls.{
  asks, sets_headers, sends, Message, user_call, user_calls, deliver, call_back, find_info, release,
}
use cofetch.Baseline.Requests.{
  is_ok, Requests, init, request, request_from, prepare, set_headers, update_info, get, wait_failed,
  Answer, writes, write_fn, process_events, send, submit, action, curl_calls, curl_call,
}
use cofetch.Baseline.Kept.{callbacks, easy_handles, in_use}
use cofetch.Baseline.Lifetime.{construct, handed, added, request_many, request_many-uncapped}
use cofetch.Baseline.Served.{Serves, initial, used, read, Serves-callbacks}

abbrev replied : Answer
replied = record { callbacks = writes 3 (104 ∷ 105 ∷ []) 1 2 ∷ []; running = 1 }

abbrev two : Requests
unfolding user_call
two =
    user_call (asks 4 [] 21 0)
      (user_call (sets_headers 3 ([] ∷ [])) (user_call (asks 9 [] 20 7) (init (3 ∷ []))))

abbrev sent : Requests
sent = user_call (sends get 3 replied wait_failed) two

abbrev third : Message
third = record { handle = 3; curl_code = 0; http_code = pos 200; reaction = asks 5 [] 22 1 ∷ [] }

not_among : (x y : ℕ) (l : List ℕ) → x ≢ y → ¬ (Mem x l) → ¬ (Mem x (y ∷ l))
not_among x y l d n m = Or.elim ⊥_prop (eq-or-mem_of_mem-cons m) d n

not_one : (x y : ℕ) → x ≢ y → ¬ (Mem x (y ∷ []))
not_one x y d = not_among x y [] d not-mem-nil

single : Nodup {A = ℕ} (3 ∷ [])
single = Nodup-cons.1 (not-mem-nil, Nodup-nil)

sent-Serves : Serves (3 ∷ []) (4 ∷ 3 ∷ []) ((21, 0) ∷ (20, 7) ∷ []) sent
unfolding init user_call request request_from prepare set_headers
sent-Serves =
    used (sends get 3 replied wait_failed)
      (used (asks 4 [] 21 0)
        (used (sets_headers 3 ([] ∷ []))
          (used (asks 9 [] 20 7) (initial single) (not_one 9 3 (omega arith))) tt)
        (not_one 4 3 (omega arith)))
      tt

Serves-callbacks_example :
    Perm (callbacks (deliver third sent)) ((22, 1) ∷ (21, 0) ∷ (20, 7) ∷ [])
    × Perm (easy_handles (deliver third sent)) (5 ∷ 4 ∷ 3 ∷ [])
unfolding find_info user_call init call_back
Serves-callbacks_example =
    Serves-callbacks (
      read third sent-Serves (not_among 5 4 (3 ∷ []) (omega arith) (not_one 5 3 (omega arith)), tt))

-- The callback gets what libcurl wrote, the status and the custom data.
first_reply :
    (deliver third sent).called
    ≡ record {
      callback = 20;
      curl_code = 0;
      http_code = pos 200;
      body = 104 ∷ 105 ∷ [];
      header_data = [];
      custom_data = 7;
    }
      ∷ []
unfolding deliver release user_calls user_call init find_info call_back request request_from prepare
    set_headers update_info send submit action curl_calls curl_call write_fn process_events
first_reply = refl

ok_reply : map is_ok (deliver third sent).called ≡ true ∷ []
unfolding is_ok
ok_reply = rw first_reply refl

abbrev silent : Answer
silent = record { callbacks = []; running = 0 }

abbrev handles_130 : List ℕ
handles_130 = handed (λ n. n) (λ n. 1000 + n) 130

request_many-uncapped_example :
    let http =
      request_many
        (λ n. 1000 + n)
        (λ n. silent)
        (λ n. wait_failed)
        []
        130
        (construct (λ n. n)).requests in
    (in_use http.request_infos ≡ handles_130)
    × (http.eh_pool ≡ [])
    × (added http.calls ≡ handles_130)
request_many-uncapped_example =
    request_many-uncapped (λ n. n) (λ n. 1000 + n) (λ n. silent) (λ n. wait_failed) [] 130

-- The two new handles, and the first of the pool's.
last_handles : take 3 handles_130 ≡ 1129 ∷ 1128 ∷ 0 ∷ []
last_handles = refl
