-- ===== src/Transfers/Nodes.antt =====
-- Lists of transfer nodes: finding, removing and counting.
use mathlib.Core.List.Perm
use cofetch.Base.{
  ℕ, ◌+◌, ◌-◌, ◌≡◌, ◌≤◌, ◌<◌, refl, List, [], ◌∷◌, none, some, All, ◌==◌, if◌then◌else◌, arith,
  Bool-cases, inl, inr, ◌⊎◌, Perm, ==_iff, ==_refl,
}
use cofetch.Transfers.Operations.{remove_node, find_id, find_handle}
use cofetch.Transfers.{Transfer}

pub data Holds (t : Transfer) : List Transfer → Type 0 where
  here : {ts : List Transfer} → Holds t (t ∷ ts)
  there : {u : Transfer} {ts : List Transfer} → Holds t ts → Holds t (u ∷ ts)

abbrev pub handles : List Transfer → List ℕ
handles [] = []
handles (t ∷ ts) = t.eh.handle ∷ handles ts

abbrev pub remove_first : ℕ → List ℕ → List ℕ
remove_first e [] = []
remove_first e (k ∷ ks) = if k == e then ks else k ∷ remove_first e ks

-- How many nodes have this handle.
abbrev pub count : ℕ → List Transfer → ℕ
count e [] = 0
count e (t ∷ ts) = (if t.eh.handle == e then 1 else 0) + count e ts

pub find_id-cases :
    (id : ℕ) (ts : List Transfer)
    → (find_id id ts ≡ none)
      ⊎ ((t : Transfer) × (find_id id ts ≡ some t) × Holds t ts × (t.id ≡ id))
unfolding find_id
find_id-cases id [] = inl refl
find_id-cases id (t ∷ ts) = elim (Bool-cases (t.id == id)) [
  | inl hit ↦ inr (t, rw hit, here, (==_iff t.id id).0 hit)
  | inr miss ↦ elim (find_id-cases id ts) [
    | inl e ↦ inl (rw miss e)
    | inr (u, e, h, same) ↦ inr (u, rw miss e, there h, same)
  ]
]

pub find_handle-cases :
    (e : ℕ) (ts : List Transfer)
    → ((find_handle e ts ≡ none) × (count e ts ≡ 0))
      ⊎ ((t : Transfer) × (find_handle e ts ≡ some t) × Holds t ts × (t.eh.handle ≡ e))
unfolding find_handle
find_handle-cases e [] = inl (refl, refl)
find_handle-cases e (t ∷ ts) = elim (Bool-cases (t.eh.handle == e)) [
  | inl hit ↦ inr (t, rw hit, here, (==_iff t.eh.handle e).0 hit)
  | inr miss ↦ elim (find_handle-cases e ts) [
    | inl (f, z) ↦ inl (rw miss f, rw miss (omega (arith, z)))
    | inr (u, f, h, same) ↦ inr (u, rw miss f, there h, same)
  ]
]

pub handles-remove_node :
    (e : ℕ) (ts : List Transfer) → handles (remove_node e ts) ≡ remove_first e (handles ts)
unfolding remove_node
handles-remove_node e [] = refl
handles-remove_node e (t ∷ ts) = ground (arith, handles-remove_node e ts)

-- Removing a node that is there takes one off its handle's count.
pub count-remove_node :
    (e : ℕ) {t : Transfer} {ts : List Transfer}
    → Holds t ts
    → count e ts ≡ (if t.eh.handle == e then 1 else 0) + count e (remove_node t.eh.handle ts)
unfolding remove_node
count-remove_node e {t} (here {ts}) = rw (==_refl t.eh.handle)
count-remove_node e {t} (there {u} {ts} h) = ground (arith, count-remove_node e h)

Holds-count : {t : Transfer} {ts : List Transfer} → Holds t ts → 0 < count t.eh.handle ts
Holds-count {t} (here {ts}) = rw (==_refl t.eh.handle) (omega arith)
Holds-count {t} (there {u} {ts} h) = omega (arith, Holds-count h)

-- With no handle in two nodes, the node that is removed is the one that is meant.
pub remove_node-perm :
    {t : Transfer} {ts : List Transfer}
    → Holds t ts
    → count t.eh.handle ts ≤ 1
    → Perm ts (t ∷ remove_node t.eh.handle ts)
unfolding remove_node
remove_node-perm {t} (here {ts}) h = rw (==_refl t.eh.handle) (Perm.refl _)
remove_node-perm {t} (there {u} {ts} p) h = elim (Bool-cases (u.eh.handle == t.eh.handle)) [
  | inl same ↦ absurd (ground (arith, Holds-count p))
  | inr other ↦
      rw other (Perm.trans (Perm.cons u (remove_node-perm p (ground arith))) (Perm.swap t u _))
]

pub All-Holds {κ} :
    (P : Transfer → Type κ) {t : Transfer} {ts : List Transfer} → All P ts → Holds t ts → P t
All-Holds P a (here {ts}) = a.0
All-Holds P a (there {u} {ts} h) = All-Holds P a.1 h

pub All-remove_node {κ} :
    (P : Transfer → Type κ) (e : ℕ) (ts : List Transfer) → All P ts → All P (remove_node e ts)
unfolding remove_node
All-remove_node P e [] a = tt
All-remove_node P e (t ∷ ts) a = elim (Bool-cases (t.eh.handle == e)) [
  | inl hit ↦ rw hit a.1
  | inr miss ↦ rw miss (a.0, All-remove_node P e ts a.1)
]

-- Ids are positive, fall along the list and stay up to the bound.
abbrev pub Falling : ℕ → List Transfer → Type 0
Falling n [] = Unit {0}
Falling n (t ∷ ts) = (0 < t.id) × (t.id ≤ n) × Falling (t.id - 1) ts

Falling-mono : (m n : ℕ) (ts : List Transfer) → m ≤ n → Falling m ts → Falling n ts
Falling-mono m n [] h f = tt
Falling-mono m n (t ∷ ts) h f = (f.0, omega arith, f.2)

pub Falling-remove_node :
    (e n : ℕ) (ts : List Transfer) → Falling n ts → Falling n (remove_node e ts)
unfolding remove_node
Falling-remove_node e n [] f = tt
Falling-remove_node e n (t ∷ ts) f = elim (Bool-cases (t.eh.handle == e)) [
  | inl hit ↦ rw hit (Falling-mono (t.id - 1) n ts (omega arith) f.2)
  | inr miss ↦ rw miss (f.0, f.1, Falling-remove_node e (t.id - 1) ts f.2)
]

pub find_id_above : (id n : ℕ) (ts : List Transfer) → Falling n ts → n < id → find_id id ts ≡ none
unfolding find_id
find_id_above id n [] f h = refl
find_id_above id n (t ∷ ts) f h = ground (arith, find_id_above id (t.id - 1) ts f.2)

Falling-Holds : {t : Transfer} (n : ℕ) {ts : List Transfer} → Falling n ts → Holds t ts → t.id ≤ n
Falling-Holds n f (here {ts}) = f.1
Falling-Holds n f (there {u} {ts} h) = omega (arith, f.1, Falling-Holds (u.id - 1) f.2 h)

-- Once its node is removed an id is not found any more.
pub find_id-remove_node :
    {t : Transfer} (n : ℕ) {ts : List Transfer}
    → Falling n ts
    → Holds t ts
    → count t.eh.handle ts ≤ 1
    → find_id t.id (remove_node t.eh.handle ts) ≡ none
unfolding remove_node find_id
find_id-remove_node {t} n f (here {ts}) one =
    rw (==_refl t.eh.handle) (find_id_above t.id (t.id - 1) ts f.2 (omega (arith, f.0)))
find_id-remove_node {t} n f (there {u} {ts} h) one = ground (
  arith,
  Holds-count h,
  Falling-Holds (u.id - 1) f.2 h,
  f.0,
  find_id-remove_node (u.id - 1) f.2 h,
)
