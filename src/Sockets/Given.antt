-- ===== src/Sockets/Given.antt =====
-- The callbacks for sockets keep the map and what libcurl was given in step.
use cofetch.Base.{
  ℕ, ◌≡◌, ◌≢◌, refl, ◌∙◌, Bool, true, false, not, List, ◌∷◌, Option, none, some, ◌==◌,
  if◌then◌else◌, arith, Bool-cases, Option-cases, inl, inr, ==_refl,
}
use cofetch.Sockets.Events.{Callback, opens, closes, tells, callback}
use cofetch.Sockets.Keys.{find-put}
use cofetch.Sockets.Owned.{Owned, Same, native_fixed, gone_Owned, register-Owned, dups, AllDups}
use cofetch.Sockets.{
  Sockets, SocketCall, wait_read, wait_write, read_done, write_done, socket_action, multi_assign,
  close_fd, dup_fd, call, update, register, Family, inet, inet6, other_family, open_socket_cb,
  close_known, close_socket_cb, borrow, arm, unwatch, notify, attach, attached, socket_cb, find,
  curl_poll_remove,
}

-- What curl_multi_assign has given for a descriptor, behind a change for `fd`.
abbrev pub forget : ℕ → (ℕ → Option ℕ) → ℕ → Option ℕ
forget fd given g = if fd == g then none else given g

abbrev pub give : ℕ → Option ℕ → (ℕ → Option ℕ) → ℕ → Option ℕ
give fd none given g = given g
give fd (some p) given g = if fd == g then some p else given g

-- libcurl keeps what it was given for a descriptor until it closes it or tells CURL_POLL_REMOVE.
abbrev pub given_after : Callback → Sockets → (ℕ → Option ℕ) → ℕ → Option ℕ
given_after (opens purpose family opened) c given = given
given_after (closes fd) c given = forget fd given
given_after (tells fd what (some p) dup assigned) c given =
    if what == curl_poll_remove then forget fd given else given
given_after (tells fd what none dup assigned) c given =
    if what == curl_poll_remove then given else give fd (attach fd dup assigned c).0 given

-- The system opens a descriptor that is not open, so that the map has none, and dups to another one.
-- libcurl hands back what it was given.
abbrev pub Honest : Callback → (ℕ → Option ℕ) → Sockets → Type 0
Honest (opens purpose family none) given c = Unit {0}
Honest (opens purpose family (some fd)) given c = find fd c.sockets ≡ none
Honest (closes fd) given c = Unit {0}
Honest (tells fd what socketp dup assigned) given c =
    (given fd ≡ socketp) × ((d : ℕ) → dup ≡ some d → d ≢ fd)

fewer-Owned :
    {given given' : ℕ → Option ℕ} {c : Sockets}
    → ((g q : ℕ) → given' g ≡ some q → given g ≡ some q)
    → Owned given c
    → Owned given' c
fewer-Owned fewer o = record {
  backed = o.backed;
  kept = o.kept;
  assigned = λ g q e. o.assigned g q (fewer g q e);
  distinct = o.distinct;
  dupped = o.dupped;
}

forget-lem :
    (fd : ℕ) (given : ℕ → Option ℕ) (g q : ℕ)
    → forget fd given g ≡ some q
    → (g ≢ fd) × (given g ≡ some q)
forget-lem fd given g q e = ground (arith, ==_refl fd)

-- Both branches of a test that gives an answer too.
if-Owned :
    {A : Type 0} {given : ℕ → Option ℕ} (b : Bool) (x y : A × Sockets)
    → Owned given x.1
    → Owned given y.1
    → Owned given (if b then x else y).1
if-Owned true x y v w = v
if-Owned false x y v w = w

open_socket_cb-Owned :
    {given : ℕ → Option ℕ} {c : Sockets} (purpose : ℕ) (family : Family) (opened : Option ℕ)
    → Honest (opens purpose family opened) given c
    → Owned given c
    → Owned given (open_socket_cb purpose family opened c).1
unfolding open_socket_cb
open_socket_cb-Owned purpose inet none h o = if-Owned (not (purpose == 0)) _ _ o o
open_socket_cb-Owned purpose inet (some fd) h o =
    if-Owned (not (purpose == 0)) _ _ o
      (register-Owned fd fd false h (λ e. refl) (λ e. cc) (λ e. cc) o)
open_socket_cb-Owned purpose inet6 none h o = if-Owned (not (purpose == 0)) _ _ o o
open_socket_cb-Owned purpose inet6 (some fd) h o =
    if-Owned (not (purpose == 0)) _ _ o
      (register-Owned fd fd false h (λ e. refl) (λ e. cc) (λ e. cc) o)
open_socket_cb-Owned purpose other_family opened h o = if-Owned (not (purpose == 0)) _ _ o o

close_known-Owned :
    {given : ℕ → Option ℕ} {c : Sockets} (fd p : ℕ)
    → find fd c.sockets ≡ some p
    → Owned given c
    → Owned (forget fd given) (close_known fd p c)
unfolding close_known
close_known-Owned {given} {c} fd p at o =
    gone_Owned fd p at (λ q n. ground arith) (ground (arith, ==_refl p)) (ground arith)
      (ground arith) (forget-lem fd given) (λ g d e. ground arith) o

close_socket_cb-Owned :
    {given : ℕ → Option ℕ} {c : Sockets} (fd : ℕ)
    → Owned given c
    → Owned (forget fd given) (close_socket_cb fd c)
unfolding close_socket_cb
close_socket_cb-Owned {given} {c} fd o = elim (Option-cases (find fd c.sockets)) [
  | inl e ↦
      rw (e, close_socket_cb)
        (fewer-Owned (λ g q h. (forget-lem fd given g q h).1)
          (native_fixed (λ p. record { fds = refl; natives = refl; borroweds = refl; opens = refl })
            refl refl (λ g d h. h) o))
  | inr (p, e) ↦ rw (e, close_socket_cb) (close_known-Owned fd p e o)
]

remove-Owned :
    {given : ℕ → Option ℕ} {c : Sockets} (fd p : ℕ)
    → find fd c.sockets ≡ some p
    → Owned given c
    → Owned (forget fd given) (unwatch fd p c)
unfolding unwatch
remove-Owned {given} {c} fd p at o = elim (Bool-cases (c.states p).borrowed) [
  | inl lent ↦ rw lent (
      gone_Owned fd p at (λ q n. ground arith) (ground (arith, ==_refl p)) (ground arith)
        (ground arith) (forget-lem fd given) (λ g d e. ground arith) o)
  | inr own ↦ rw own (
      fewer-Owned (λ g q h. (forget-lem fd given g q h).1)
        (native_fixed (λ q. ground arith) refl refl (λ g d e. ground arith) o))
]

arm-Same : (p q : ℕ) (c : Sockets) → Same ((arm p c).states q) (c.states q)
unfolding arm
arm-Same p q c = ground arith

arm_map : (p : ℕ) (c : Sockets) → ((arm p c).next ≡ c.next) × ((arm p c).sockets ≡ c.sockets)
unfolding arm
arm_map p c = ground arith

dups-arm : (g d p : ℕ) (c : Sockets) → dups g d (arm p c).calls ≡ dups g d c.calls
unfolding arm
dups-arm g d p c = ground arith

pub arm-Owned : {given : ℕ → Option ℕ} {c : Sockets} (p : ℕ) → Owned given c → Owned given (arm p c)
arm-Owned {c} p o =
    native_fixed (λ q. arm-Same p q c) (arm_map p c).0 (arm_map p c).1
      (λ g d e. dups-arm g d p c ∙ e) o

watch-Owned :
    {given : ℕ → Option ℕ} {c : Sockets} (p what : ℕ)
    → Owned given c
    → Owned given (update p (λ s. record s { watch = what }) c)
watch-Owned p what o = native_fixed (λ q. ground arith) refl refl (λ g d e. e) o

-- What libcurl keeps behind notify.
abbrev told : ℕ → ℕ → (ℕ → Option ℕ) → ℕ → Option ℕ
told fd what given = if what == curl_poll_remove then forget fd given else given

notify-Owned :
    {given : ℕ → Option ℕ} {c : Sockets} (fd what p : ℕ)
    → find fd c.sockets ≡ some p
    → Owned given c
    → Owned (told fd what given) (notify fd what p c)
unfolding notify
notify-Owned fd what p at o = elim (Bool-cases (what == curl_poll_remove)) [
  | inl remove ↦ rw remove (remove-Owned fd p at o)
  | inr interest ↦ rw interest (arm-Owned p (watch-Owned p what o))
]

-- What is known of the state that `attach` finds or makes.
abbrev pub Attached : ℕ → (ℕ → Option ℕ) → Option ℕ × Sockets → Type 0
Attached fd given (none, d) = Owned given d
Attached fd given (some p, d) = Owned given d × (find fd d.sockets ≡ some p)

if-Attached :
    (fd : ℕ) (given : ℕ → Option ℕ) (b : Bool) (x y : Option ℕ × Sockets)
    → Attached fd given x
    → Attached fd given y
    → Attached fd given (if b then x else y)
if-Attached fd given true x y v w = v
if-Attached fd given false x y v w = w

AllDups-call : (x : SocketCall) (cs : List SocketCall) → AllDups cs (x ∷ cs)
AllDups-call (wait_read p) cs g d e = e
AllDups-call (wait_write p) cs g d e = e
AllDups-call (multi_assign fd p) cs g d e = e
AllDups-call (socket_action fd a) cs g d e = e
AllDups-call (close_fd fd) cs g d e = e
AllDups-call (dup_fd fd n) cs g d e = ground arith
AllDups-call (read_done p) cs g d e = e
AllDups-call (write_done p) cs g d e = e

logged-Owned :
    {given : ℕ → Option ℕ} {c : Sockets} (x : SocketCall) → Owned given c → Owned given (call x c)
logged-Owned {c} x o =
    native_fixed (λ p. record { fds = refl; natives = refl; borroweds = refl; opens = refl }) refl
      refl (AllDups-call x c.calls) o

borrow-Attached :
    {given : ℕ → Option ℕ} {c : Sockets} (fd : ℕ) (dup : Option ℕ) (assigned : Bool)
    → find fd c.sockets ≡ none
    → ((d : ℕ) → dup ≡ some d → d ≢ fd)
    → Owned given c
    → Attached fd given (borrow fd dup assigned c)
unfolding borrow register
borrow-Attached fd none assigned new other o = o
borrow-Attached {given} {c} fd (some d) assigned new other o =
    let copied = logged-Owned (dup_fd fd d) o in
    if-Attached fd given (not assigned) _ _ (logged-Owned (close_fd d) copied) (
      register-Owned fd d true new (λ e. cc) (λ e. other d refl)
          (λ e. ground (arith, ==_refl fd, ==_refl d)) copied,
      find-put fd fd c.next c.sockets ∙ ground (arith, ==_refl fd),
    )

pub attach-Attached :
    {given : ℕ → Option ℕ} {c : Sockets} (fd : ℕ) (dup : Option ℕ) (assigned : Bool)
    → ((d : ℕ) → dup ≡ some d → d ≢ fd)
    → Owned given c
    → Attached fd given (attach fd dup assigned c)
unfolding attach
attach-Attached {c} fd dup assigned other o = elim (Option-cases (find fd c.sockets)) [
  | inl e ↦ rw (e, attach) (borrow-Attached fd dup assigned e other o)
  | inr (p, e) ↦ rw (e, attach) (o, e)
]

give-Owned :
    {given : ℕ → Option ℕ} {c : Sockets} (fd p : ℕ)
    → find fd c.sockets ≡ some p
    → Owned given c
    → Owned (give fd (some p) given) c
give-Owned fd p at o = record {
  backed = o.backed;
  kept = o.kept;
  assigned = λ g q e. ground (arith, o.assigned g q);
  distinct = o.distinct;
  dupped = o.dupped;
}

attached-Owned :
    (given : ℕ → Option ℕ) (fd what : ℕ) (r : Option ℕ × Sockets)
    → (what == curl_poll_remove) ≡ false
    → Attached fd given r
    → Owned (give fd r.0 given) (attached fd what r)
unfolding attached notify
attached-Owned given fd what (none, c) e a = a
attached-Owned given fd what (some p, c) e (o, at) =
    rw e
      (arm-Owned p (watch-Owned p what (logged-Owned (multi_assign fd p) (give-Owned fd p at o))))

-- A callback keeps the map and what libcurl was given in step.
pub callback-Owned :
    {given : ℕ → Option ℕ} {c : Sockets} (k : Callback)
    → Honest k given c
    → Owned given c
    → Owned (given_after k c given) (callback k c)
unfolding callback socket_cb
callback-Owned (opens purpose family opened) h o = open_socket_cb-Owned purpose family opened h o
callback-Owned (closes fd) h o = close_socket_cb-Owned fd o
callback-Owned (tells fd what (some p) dup assigned) (given_p, other) o =
    notify-Owned fd what p (o.assigned fd p given_p) o
callback-Owned {given} {c} (tells fd what none dup assigned) (_, other) o =
    elim (Bool-cases (what == curl_poll_remove)) [
      | inl remove ↦ rw remove o
      | inr interest ↦ rw interest (
          attached-Owned given fd what (attach fd dup assigned c) interest
            (attach-Attached fd dup assigned other o))
    ]
