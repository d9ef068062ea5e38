-- ===== src/Tests/Wakes.antt =====
-- libcurl asks to be woken, and the wake-ups run.
use cofetch.Base.{◌+◌, ◌≡◌, refl, [], ◌∷◌, pos}
use cofetch.Timers.{Timers, init, timer_cb, post_kick, async_wait, expires_at}
use cofetch.Timers.Wake.{WakesBy, timer_cb-WakesBy, Wakes, initial, asked, Wakes-Inv, kicks}

abbrev later : Timers
later = timer_cb 100 (pos 20) init

abbrev sooner : Timers
sooner = timer_cb 105 (pos 0) later

later_calls : sooner.calls ≡ post_kick ∷ async_wait ∷ expires_at 120 ∷ []
unfolding init timer_cb
later_calls = refl

sooner-Wakes : Wakes sooner
sooner-Wakes = asked 105 (pos 0) (asked 100 (pos 20) initial)

sooner_kicks : kicks sooner.calls ≡ 1
unfolding init timer_cb
sooner_kicks = refl

timer_cb-WakesBy_example : WakesBy (110 + 7) (timer_cb 110 (pos 7) sooner)
timer_cb-WakesBy_example = timer_cb-WakesBy 110 7 (Wakes-Inv sooner-Wakes)
