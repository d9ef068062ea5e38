-- ===== src/Sockets/Armed.antt =====
-- The armed flags say which waits are outstanding.
use cofetch.Base.{
  ℕ, suc, ◌+◌, ◌-◌, ◌≡◌, ◌≤◌, ◌<◌, refl, Bool, true, false, not, List, [], ◌∷◌, some, ◌==◌,
  if◌then◌else◌, arith, Bool-cases, inl, inr,
}
use cofetch.Sockets.{
  SocketState, SocketCall, wait_read, wait_write, multi_assign, socket_action, close_fd, dup_fd,
  read_done, write_done, Sockets, update, register, close_socket, arm_read, arm_write, arm, unwatch,
  notify, find, erase, put, curl_poll_remove,
}

-- How many waits for reading on this state are asked for and not over.
abbrev pub reads : ℕ → List SocketCall → ℕ
reads p [] = 0
reads p (wait_read q ∷ cs) = (if q == p then 1 else 0) + reads p cs
reads p (read_done q ∷ cs) = reads p cs - (if q == p then 1 else 0)
reads p (wait_write q ∷ cs) = reads p cs
reads p (multi_assign f q ∷ cs) = reads p cs
reads p (socket_action f a ∷ cs) = reads p cs
reads p (close_fd f ∷ cs) = reads p cs
reads p (dup_fd f d ∷ cs) = reads p cs
reads p (write_done q ∷ cs) = reads p cs

abbrev pub writes : ℕ → List SocketCall → ℕ
writes p [] = 0
writes p (wait_write q ∷ cs) = (if q == p then 1 else 0) + writes p cs
writes p (write_done q ∷ cs) = writes p cs - (if q == p then 1 else 0)
writes p (wait_read q ∷ cs) = writes p cs
writes p (multi_assign f q ∷ cs) = writes p cs
writes p (socket_action f a ∷ cs) = writes p cs
writes p (close_fd f ∷ cs) = writes p cs
writes p (dup_fd f d ∷ cs) = writes p cs
writes p (read_done q ∷ cs) = writes p cs

abbrev pub one_if : Bool → ℕ
one_if b = if b then 1 else 0

-- Every state in the map has been made.
abbrev pub Known : ℕ → List (ℕ × ℕ) → Type 0
Known n [] = Unit {0}
Known n ((fd, p) ∷ m) = (p < n) × Known n m

pub find-Known : (fd n p : ℕ) (m : List (ℕ × ℕ)) → Known n m → find fd m ≡ some p → p < n
unfolding find
find-Known fd n p [] k e = cc
find-Known fd n p ((j, q) ∷ m) k e = ground (arith, find-Known fd n p m k.1)

pub erase-Known : (fd n : ℕ) (m : List (ℕ × ℕ)) → Known n m → Known n (erase fd m)
unfolding erase
erase-Known fd n [] k = tt
erase-Known fd n ((j, q) ∷ m) k = ground (arith, erase-Known fd n m k.1)

Known-suc : (n : ℕ) (m : List (ℕ × ℕ)) → Known n m → Known (suc n) m
Known-suc n [] k = tt
Known-suc n ((j, q) ∷ m) k = (omega arith, Known-suc n m k.1)

put-Known : (fd n : ℕ) (m : List (ℕ × ℕ)) → Known n m → Known (suc n) (put fd n m)
unfolding put
put-Known fd n [] k = (omega arith, tt)
put-Known fd n ((j, q) ∷ m) k = ground (arith, put-Known fd n m k.1, Known-suc n m k.1)

-- On each state one wait for reading is outstanding if `read_armed`, and none if not; so for
-- writing. A new address has no wait, and is not in the map.
pub record Inv (c : Sockets) : Type 0 where
  pub reading : (p : ℕ) → p < c.next → reads p c.calls ≡ one_if (c.states p).read_armed
  pub writing : (p : ℕ) → p < c.next → writes p c.calls ≡ one_if (c.states p).write_armed
  pub no_reads : (p : ℕ) → c.next ≤ p → reads p c.calls ≡ 0
  pub no_writes : (p : ℕ) → c.next ≤ p → writes p c.calls ≡ 0
  pub known : Known c.next c.sockets

pub register-Inv :
    {c : Sockets} (fd native : ℕ) (borrowed : Bool) → Inv c → Inv (register fd native borrowed c)
unfolding register
register-Inv {c} fd native borrowed v = record {
  reading = λ p h. ground (arith, v.reading p, v.no_reads p);
  writing = λ p h. ground (arith, v.writing p, v.no_writes p);
  no_reads = λ p h. v.no_reads p (omega arith);
  no_writes = λ p h. v.no_writes p (omega arith);
  known = put-Known fd c.next c.sockets v.known;
}

arm_read-Inv : {c : Sockets} (p : ℕ) → p < c.next → Inv c → Inv (arm_read p c)
unfolding arm_read
arm_read-Inv {c} p known v = record {
  reading = λ q h. ground (arith, v.reading q, v.reading p);
  writing = λ q h. ground (arith, v.writing q, v.writing p);
  no_reads = λ q h. ground (arith, v.no_reads q);
  no_writes = λ q h. ground (arith, v.no_writes q);
  known = ground (arith, v.known);
}

arm_write-Inv : {c : Sockets} (p : ℕ) → p < c.next → Inv c → Inv (arm_write p c)
unfolding arm_write
arm_write-Inv {c} p known v = record {
  reading = λ q h. ground (arith, v.reading q, v.reading p);
  writing = λ q h. ground (arith, v.writing q, v.writing p);
  no_reads = λ q h. ground (arith, v.no_reads q);
  no_writes = λ q h. ground (arith, v.no_writes q);
  known = ground (arith, v.known);
}

pub next-arm_read : (p : ℕ) (c : Sockets) → (arm_read p c).next ≡ c.next
unfolding arm_read
next-arm_read p c = ground arith

pub next-arm_write : (p : ℕ) (c : Sockets) → (arm_write p c).next ≡ c.next
unfolding arm_write
next-arm_write p c = ground arith

pub arm-Inv : {c : Sockets} (p : ℕ) → p < c.next → Inv c → Inv (arm p c)
unfolding arm
arm-Inv {c} p known v = elim (Bool-cases (not (c.states p).is_open)) [
  | inl shut ↦ rw shut v
  | inr open_still ↦
      rw open_still (arm_write-Inv p (rw next-arm_read known) (arm_read-Inv p known v))
]

-- A change of a state that leaves its armed flags alone.
record KeepsArmed (f : SocketState → SocketState) : Type 0 where
  same_read : (s : SocketState) → (f s).read_armed ≡ s.read_armed
  same_write : (s : SocketState) → (f s).write_armed ≡ s.write_armed

update-Inv :
    {c : Sockets} (p : ℕ) (f : SocketState → SocketState)
    → KeepsArmed f
    → Inv c
    → Inv (update p f c)
update-Inv {c} p f k v = record {
  reading = λ q h. ground (arith, v.reading q, k.same_read (c.states p));
  writing = λ q h. ground (arith, v.writing q, k.same_write (c.states p));
  no_reads = v.no_reads;
  no_writes = v.no_writes;
  known = v.known;
}

pub close_socket-Inv : {c : Sockets} (p : ℕ) → Inv c → Inv (close_socket p c)
unfolding close_socket
close_socket-Inv {c} p v = record {
  reading = λ q h. ground (arith, v.reading q);
  writing = λ q h. ground (arith, v.writing q);
  no_reads = λ q h. ground (arith, v.no_reads q);
  no_writes = λ q h. ground (arith, v.no_writes q);
  known = ground (arith, v.known);
}

pub next-close_socket : (p : ℕ) (c : Sockets) → (close_socket p c).next ≡ c.next
unfolding close_socket
next-close_socket p c = ground arith

-- The invariant does not read the map, nor calls that are no waits.
map-Inv : {c : Sockets} (m : List (ℕ × ℕ)) → Known c.next m → Inv c → Inv (record c { sockets = m })
map-Inv m k v = record {
  reading = v.reading;
  writing = v.writing;
  no_reads = v.no_reads;
  no_writes = v.no_writes;
  known = k;
}

pub erase-Inv : {c : Sockets} (fd : ℕ) → Inv c → Inv (record c { sockets = erase fd c.sockets })
erase-Inv {c} fd v = map-Inv _ (erase-Known fd c.next c.sockets v.known) v

pub watch-Inv :
    {c : Sockets} (p what : ℕ) → Inv c → Inv (update p (λ s. record s { watch = what }) c)
watch-Inv p what v =
    update-Inv p (λ s. record s { watch = what })
      (record { same_read = λ s. refl; same_write = λ s. refl }) v

-- Both branches of a test keep the invariant.
pub if-Inv : (b : Bool) {x y : Sockets} → Inv x → Inv y → Inv (if b then x else y)
if-Inv true v w = v
if-Inv false v w = w

unwatch-Inv : {c : Sockets} (fd p : ℕ) → Inv c → Inv (unwatch fd p c)
unfolding unwatch
unwatch-Inv {c} fd p v =
    if-Inv (c.states p).borrowed (erase-Inv fd (close_socket-Inv p (watch-Inv p 0 v)))
      (watch-Inv p 0 v)

pub notify-Inv : {c : Sockets} (fd what p : ℕ) → p < c.next → Inv c → Inv (notify fd what p c)
unfolding notify
notify-Inv fd what p known v = elim (Bool-cases (what == curl_poll_remove)) [
  | inl remove ↦ rw remove (unwatch-Inv fd p v)
  | inr interest ↦ rw interest (arm-Inv p known (watch-Inv p what v))
]
