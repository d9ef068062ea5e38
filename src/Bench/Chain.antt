-- ===== src/Bench/Chain.antt =====
-- The chain scenario of bench_cofetch.cpp with callbacks: `next` and the request's callback.
use cofetch.Base.{
  ℕ, zero, suc, ◌+◌, ◌≡◌, ◌≤◌, refl, ap, ◌∙◌, Bool, List, [], ◌∷◌, if◌then◌else◌, length, ℤ, pos,
  negsuc, ltb_ℤ, arith, leb, ◌<◌, ◌-◌, pos_part,
}
use cofetch.Bench.Throughput.{count_failed}

pub record Links : Type 0 where
  pub remaining : ℤ
  pub launched : ℕ
  pub failed : ℕ

abbrev pub decrement : ℤ → ℤ
decrement (pos zero) = negsuc 0
decrement (pos (suc n)) = pos n
decrement (negsuc n) = negsuc (suc n)

-- next
unfoldable pub next : Links → Links
next s = record s { launched = s.launched + 1 }

-- The callback.
unfoldable pub respond : Bool → Links → Links
unfolding next
respond good s =
    let left = record s {
      remaining = decrement s.remaining;
      failed = if good then s.failed else s.failed + 1;
    } in
    if ltb_ℤ (pos 0) left.remaining then next left else left

-- The start, and the responses so far, the last one first.
unfoldable pub run : ℤ → List Bool → Links
unfolding next respond
run total [] = next (record { remaining = total; launched = 0; failed = 0 })
run total (good ∷ rest) = respond good (run total rest)

abbrev pub min : ℕ → ℕ → ℕ
min a b = if leb a b then a else b

-- How many requests a chain makes: at least one, since `next` is called before `remaining` is tested.
abbrev pub links : ℤ → ℕ
links total = if ltb_ℤ (pos 0) total then pos_part total else 1

run_pos :
    (total : ℕ) (responses : List Bool)
    → 0 < total
    → length responses ≤ total
    → run (pos total) responses ≡ record {
      remaining = pos (total - length responses);
      launched = min total (length responses + 1);
      failed = count_failed responses;
    }
unfolding run respond next
run_pos total [] h k = ground arith
run_pos total (good ∷ rest) h k =
    let n = total - length rest - 1 in
    let before : total - length rest ≡ suc n = omega arith in
    ap (respond good) (run_pos total rest h (omega arith)) ∙ rw before (ground arith)

-- After as many responses as a chain has requests or fewer, one request more is launched, until all
-- are; never two at once. A chain of a total of 0, or less, makes one request.
pub run_launched :
    (total : ℤ) (responses : List Bool)
    → length responses ≤ links total
    → (run total responses).launched ≡ min (links total) (length responses + 1)
unfolding run respond next
run_launched (pos zero) [] h = ground arith
run_launched (pos zero) (good ∷ []) h = ground arith
run_launched (pos zero) (good ∷ good' ∷ rest) h = absurd (omega arith)
run_launched (negsuc n) [] h = ground arith
run_launched (negsuc n) (good ∷ []) h = ground arith
run_launched (negsuc n) (good ∷ good' ∷ rest) h = absurd (grind arith)
run_launched (pos (suc n)) responses h =
    let some_links : links (pos (suc n)) ≡ suc n = ground arith in
    rw some_links
      (ap (λ s. s.launched) (run_pos (suc n) responses (omega arith) (rw some_links at h)))

-- What `co_await client.async_get(url, use_awaitable)` does: it throws, or gives a response, of which
-- the flag says that its status is 2xx.
pub data Answer : Type 0 where
  thrown : Answer
  replied : Bool → Answer

-- The chain with a coroutine: the requests made and those counted failed, by the answers so far, the
-- first one first. An exception leaves the loop, and `detached` drops it.
unfoldable pub coroutine : ℕ → List Answer → ℕ × ℕ
coroutine zero answers = (0, 0)
coroutine (suc left) [] = (1, 0)
coroutine (suc left) (thrown ∷ answers) = (1, 0)
coroutine (suc left) (replied good ∷ answers) =
    let rest = coroutine left answers in (rest.0 + 1, (if good then 0 else 1) + rest.1)

abbrev pub replies : List Bool → List Answer → List Answer
replies [] after = after
replies (good ∷ rest) after = replied good ∷ replies rest after

-- When a request of the chain throws, behind fewer replies than the total, the chain makes no request
-- after it, and counts as failed only those of the replies before it that are not good: not the request
-- that threw, and none of those that it leaves out.
pub coroutine_stops :
    (total : ℕ) (before : List Bool) (after : List Answer)
    → length before < total
    → coroutine total (replies before (thrown ∷ after)) ≡ (length before + 1, count_failed before)
unfolding coroutine
coroutine_stops zero before after h = absurd (omega arith)
coroutine_stops (suc left) [] after h = refl
coroutine_stops (suc left) (good ∷ rest) after h =
    rw (coroutine_stops left rest after (omega arith)) (ground arith)
