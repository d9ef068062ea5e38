-- ===== src/Transfers/Invariant/Received.antt =====
-- header_cb and body_write_cb keep the invariant.
use cofetch.Base.{
  ℕ, ◌-◌, ◌≡◌, refl, sym, ◌∙◌, List, [], ◌∷◌, ◌==◌, arith, Bool-cases, inl, inr, All,
}
use cofetch.Response.{Bytes}
use cofetch.Transfers.Nodes.{handles, count, Falling}
use cofetch.Transfers.Callbacks.{update_node, header_cb, body_write_cb}
use cofetch.Transfers.Invariant.{IsFlying, Inv}
use cofetch.Transfers.{Transfer, Transfers}

-- A change of a node's buffers only.
record Keeps (f : Transfer → Transfer) : Type 0 where
  same_eh : (t : Transfer) → (f t).eh ≡ t.eh
  same_handler : (t : Transfer) → (f t).handler ≡ t.handler
  same_id : (t : Transfer) → (f t).id ≡ t.id
  same_scrub : (t : Transfer) → (f t).scrub_on_done ≡ t.scrub_on_done

module _ (e : ℕ) (f : Transfer → Transfer) (k : Keeps f) where
  handles-update_node : (ts : List Transfer) → handles (update_node e f ts) ≡ handles ts
  unfolding update_node
  handles-update_node [] = refl
  handles-update_node (t ∷ ts) = ground (arith, k.same_eh t, handles-update_node ts)

  count-update_node : (j : ℕ) (ts : List Transfer) → count j (update_node e f ts) ≡ count j ts
  unfolding update_node
  count-update_node j [] = refl
  count-update_node j (t ∷ ts) = ground (arith, k.same_eh t, count-update_node j ts)

  Falling-update_node : (n : ℕ) (ts : List Transfer) → Falling n ts → Falling n (update_node e f ts)
  unfolding update_node
  Falling-update_node n [] h = tt
  Falling-update_node n (t ∷ ts) h = elim (Bool-cases (t.eh.handle == e)) [
    | inl hit ↦ rw (hit, k.same_id t) h
    | inr miss ↦ rw miss (h.0, h.1, Falling-update_node (t.id - 1) ts h.2)
  ]

  IsFlying-keeps : (t : Transfer) → IsFlying t → IsFlying (f t)
  IsFlying-keeps t h = record {
    handled = (h.handled.0, k.same_handler t ∙ h.handled.1);
    marked = λ g. rw (k.same_eh t) (h.marked (sym (k.same_scrub t) ∙ g));
  }

  IsFlying-update_node : (ts : List Transfer) → All IsFlying ts → All IsFlying (update_node e f ts)
  unfolding update_node
  IsFlying-update_node [] h = tt
  IsFlying-update_node (t ∷ ts) h = elim (Bool-cases (t.eh.handle == e)) [
    | inl hit ↦ rw hit (IsFlying-keeps t h.0, h.1)
    | inr miss ↦ rw miss (h.0, IsFlying-update_node ts h.1)
  ]

  update_node-Inv :
      {c : Transfers} → Inv c → Inv (record c { transfers = update_node e f c.transfers })
  update_node-Inv {c} v = record {
    bounded = v.bounded;
    falling = Falling-update_node c.next_transfer_id c.transfers v.falling;
    flying = IsFlying-update_node c.transfers v.flying;
    resting = v.resting;
    in_multi = rw handles-update_node v.in_multi;
    owned = λ j. rw count-update_node (v.owned j);
    single = v.single;
    balanced = v.balanced;
  }

-- A line of the header block that comes in keeps the invariant.
pub header_cb-Inv :
    {c : Transfers} (e : ℕ) (chunk : Bytes) (n l : ℕ) → Inv c → Inv (header_cb e chunk n l c).1
unfolding header_cb
header_cb-Inv e chunk n l v =
    update_node-Inv e _
      (record {
        same_eh = λ t. refl;
        same_handler = λ t. refl;
        same_id = λ t. refl;
        same_scrub = λ t. refl;
      })
      v

-- A piece of the body that comes in keeps the invariant.
pub body_write_cb-Inv :
    {c : Transfers} (e : ℕ) (chunk : Bytes) (n l : ℕ) → Inv c → Inv (body_write_cb e chunk n l c).1
unfolding body_write_cb
body_write_cb-Inv e chunk n l v =
    update_node-Inv e _
      (record {
        same_eh = λ t. refl;
        same_handler = λ t. refl;
        same_id = λ t. refl;
        same_scrub = λ t. refl;
      })
      v
