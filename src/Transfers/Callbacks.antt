-- ===== src/Transfers/Callbacks.antt =====
-- header_cb and body_write_cb, the callbacks for received data.
use cofetch.Base.{ℕ, ◌*◌, List, [], ◌∷◌, ◌++◌, ◌==◌, if◌then◌else◌, take}
use cofetch.Response.{Bytes}
use cofetch.Transfers.{Transfer, Transfers}

unfoldable pub update_node : ℕ → (Transfer → Transfer) → List Transfer → List Transfer
update_node e f [] = []
update_node e f (t ∷ ts) = if t.eh.handle == e then f t ∷ ts else t ∷ update_node e f ts

-- header_cb, on the buffer of this handle's node: the count that it returns, and the state.
unfoldable pub header_cb : ℕ → Bytes → ℕ → ℕ → Transfers → ℕ × Transfers
unfolding update_node
header_cb e chunk n l c = (
  n * l,
  record c {
    transfers =
        update_node e (λ t. record t { header_buffer = t.header_buffer ++ take (n * l) chunk })
          c.transfers;
  },
)

-- body_write_cb. What it reserves is no part of the string's value.
unfoldable pub body_write_cb : ℕ → Bytes → ℕ → ℕ → Transfers → ℕ × Transfers
unfolding update_node
body_write_cb e chunk n l c = (
  n * l,
  record c {
    transfers =
        update_node e (λ t. record t { buffer = t.buffer ++ take (n * l) chunk }) c.transfers;
  },
)
