-- ===== src/Transfers/Invariant/Started.antt =====
-- start keeps the invariant, on each of its branches.
use cofetch.Base.{
  ℕ, ◌+◌, ◌-◌, ◌%◌, ◌≡◌, ◌≤◌, ◌<◌, refl, true, false, List, [], ◌∷◌, Option, none, some, ◌==◌,
  if◌then◌else◌, length, arith, Bool-cases, Option-cases, inl, inr, ==_refl, All, append-nil,
}
use cofetch.Request.{Request}
use cofetch.Transfers.Handle.{configure_handle, hook_settings}
use cofetch.Transfers.Nodes.{here, handles, count, Falling}
use cofetch.Transfers.Operations.{
  id_mod, curlm_ok, fail, prepare, new_node, take_node, assign_slot, add_to_multi, start_on, start,
}
use cofetch.Transfers.Invariant.Retire.{retire-Inv}
use cofetch.Transfers.Invariant.Preserved.{fail-Inv}
use cofetch.Transfers.Invariant.{
  attached, live, made, cleaned, Unhooked, configured, requested, IsIdle, IsFlying, Inv,
}
use cofetch.Transfers.{Transfer, Transfers, Handler, Call}

-- The invariant while node `t` is in neither list.
record Spare (t : Transfer) (c : Transfers) : Type 0 where
  bounded : length c.idle ≤ c.max_pooled_handles
  falling : Falling c.next_transfer_id c.transfers
  flying : All IsFlying c.transfers
  resting : All IsIdle c.idle
  in_multi : attached c.calls ≡ handles c.transfers
  owned :
      (e : ℕ)
      → (if t.eh.handle == e then 1 else 0) + count e c.transfers + count e c.idle ≡ live e c.calls
  single : (e : ℕ) → live e c.calls ≤ 1
  balanced : (e : ℕ) → made e c.calls ≡ live e c.calls + cleaned e c.calls
  unhooked : Unhooked t.eh.handle t.eh.settings
  unscrubbed : t.scrub_on_done ≡ false

-- `curl_easy_init` gives a handle that is not in use.
abbrev pub IsNew : Option ℕ → List Call → Type 0
IsNew none cs = Unit {0}
IsNew (some e) cs = live e cs ≡ 0

abbrev Takes : Transfers → Option (Transfer × Transfers) → Type 0
Takes c none = Unit {0}
Takes c (some (t, d)) = Spare t d × (d.next_transfer_id ≡ c.next_transfer_id)

take_node-Takes :
    (ts : List Transfer) (init : Option ℕ) {c : Transfers}
    → c.idle ≡ ts
    → IsNew init c.calls
    → Inv c
    → Takes c (take_node ts init c)
unfolding take_node new_node configure_handle
take_node-Takes [] none {c} i f v = tt
take_node-Takes [] (some e) {c} i f v = (
  record {
    bounded = v.bounded;
    falling = v.falling;
    flying = v.flying;
    resting = v.resting;
    in_multi = v.in_multi;
    owned = λ k. omega (arith, v.owned k);
    single = λ k. ground (arith, v.single k, f);
    balanced = λ k. ground (arith, v.balanced k, f);
    unhooked = configured refl;
    unscrubbed = refl;
  },
  refl,
)
take_node-Takes (t ∷ ts) init {c} i f v = (
  record {
    bounded = omega (arith, rw i at v.bounded);
    falling = v.falling;
    flying = v.flying;
    resting = resting.1;
    in_multi = v.in_multi;
    owned = λ k. omega (arith, rw i at (v.owned k));
    single = v.single;
    balanced = v.balanced;
    unhooked = resting.0.no_hook;
    unscrubbed = resting.0.no_scrub;
  },
  refl,
)
  where
    resting : All IsIdle (t ∷ ts)
    resting = rw i at v.resting

prepare-IsFlying :
    (r : Request) (h : Handler) (id : ℕ) {t : Transfer} {c : Transfers}
    → Spare t c
    → IsFlying (prepare r h id t)
unfolding prepare
prepare-IsFlying r h id {t} v = record {
  handled = (h, refl);
  marked = elim (Option-cases r.curl_setup) [
    | inl e ↦ λ f. requested r v.unhooked (rw (e, hook_settings, append-nil))
    | inr (fn, e) ↦ λ f. absurd (true_is_false (rw e at f))
  ];
}
  where
    true_is_false : true ≡ false → ⊥
    true_is_false q = cc

attached-assign_slot :
    (h : Handler) (id : ℕ) (cs : List Call) → attached (assign_slot h id cs) ≡ attached cs
unfolding assign_slot
attached-assign_slot h id cs = ground arith

-- Each handle is freed as often as it has been made, or once less often if it is live.
abbrev Balanced : ℕ → List Call → Type 0
Balanced e cs = made e cs ≡ live e cs + cleaned e cs

assign_slot-Balanced :
    (e : ℕ) (h : Handler) (id : ℕ) (cs : List Call)
    → Balanced e cs
    → Balanced e (assign_slot h id cs)
unfolding assign_slot
assign_slot-Balanced e h id cs b = ground (arith, b)

live-assign_slot :
    (e : ℕ) (h : Handler) (id : ℕ) (cs : List Call) → live e (assign_slot h id cs) ≡ live e cs
unfolding assign_slot
live-assign_slot e h id cs = ground arith

-- The node of the new transfer is in front; `curl_multi_add_handle` has not been called yet.
record Entered (t : Transfer) (c : Transfers) : Type 0 where
  front : (ts : List Transfer) × (c.transfers ≡ t ∷ ts) × (attached c.calls ≡ handles ts)
  bounded : length c.idle ≤ c.max_pooled_handles
  falling : Falling c.next_transfer_id c.transfers
  flying : All IsFlying c.transfers
  resting : All IsIdle c.idle
  owned : (e : ℕ) → count e c.transfers + count e c.idle ≡ live e c.calls
  single : (e : ℕ) → live e c.calls ≤ 1
  balanced : (e : ℕ) → made e c.calls ≡ live e c.calls + cleaned e c.calls

add_to_multi-Inv : (rc : ℕ) {t : Transfer} {c : Transfers} → Entered t c → Inv (add_to_multi rc t c)
unfolding add_to_multi
add_to_multi-Inv rc {t} {c} v = elim (Bool-cases (rc == curlm_ok)) [
  | inl added ↦ rw added (record {
    bounded = v.bounded;
    falling = v.falling;
    flying = v.flying;
    resting = v.resting;
    in_multi = rw (v.front.1, v.front.2);
    owned = v.owned;
    single = v.single;
    balanced = v.balanced;
  })
  | inr failed ↦ rw failed (
      fail-Inv t.handler _ (
        retire-Inv {t = t} true
          (record {
            bounded = v.bounded;
            falling = v.falling;
            flying = v.flying;
            resting = v.resting;
            in_multi = rw (v.front.1, ==_refl t.eh.handle) v.front.2;
            owned = v.owned;
            single = v.single;
            balanced = v.balanced;
          })
          (rw v.front.1 here) (λ f. cc)))
]

start_on-Inv :
    (rc : ℕ) (r : Request) (h : Handler) {t : Transfer} {c : Transfers}
    → c.next_transfer_id + 1 < id_mod
    → Spare t c
    → Inv (start_on rc r h (t, c))
unfolding start_on prepare
start_on-Inv rc r h {t} {c} small v =
    let id : (c.next_transfer_id + 1) % id_mod ≡ c.next_transfer_id + 1 = omega arith in
    let old : c.next_transfer_id + 1 - 1 ≡ c.next_transfer_id = omega arith in
    add_to_multi-Inv rc (record {
      front = (c.transfers, refl, rw attached-assign_slot v.in_multi);
      bounded = v.bounded;
      falling = rw (id, old) (omega arith, omega arith, v.falling);
      flying = (prepare-IsFlying r h _ v, v.flying);
      resting = v.resting;
      owned = λ e. rw live-assign_slot (v.owned e);
      single = λ e. rw live-assign_slot (v.single e);
      balanced = λ e. assign_slot-Balanced e h _ _ (v.balanced e);
    })

-- Starting a request keeps the invariant, whether there is a pooled node or not and whether libcurl
-- gives a handle and takes it or not, as long as fewer than 2 ^ 64 requests are started.
pub start-Inv :
    {c : Transfers} (init : Option ℕ) (rc : ℕ) (r : Request) (h : Handler)
    → IsNew init c.calls
    → c.next_transfer_id + 1 < id_mod
    → Inv c
    → Inv (start init rc r h c)
unfolding start
start-Inv {c} init rc r h new small v = go (take_node c.idle init c) refl
  where
    go :
        (o : Option (Transfer × Transfers))
        → take_node c.idle init c ≡ o
        → Inv (elim o as (λ _. Transfers) [
          | none ↦ fail (some h) 2 c
          | some node ↦ start_on rc r h node
        ])
    go none e = fail-Inv (some h) 2 v
    go (some (t, d)) e =
        let taken = rw e at (take_node-Takes c.idle init refl new v) in
        start_on-Inv rc r h (rw taken.1 small) taken.0
