-- ===== src/Transfers.antt =====
-- The transfers of class Client in include/cofetch.h: the state and what it is made of.
pub mod Handle
pub mod Operations
pub mod Callbacks
pub mod Nodes
pub mod Invariant
pub mod Completions
pub mod Lists
pub mod Starts
pub mod Reach
pub mod Errors
pub mod Outcomes
use cofetch.Base.{ℕ, Bool, List, Option}
use cofetch.Request.{Setting}
use cofetch.Response.{Bytes, Response}

-- An easy handle, with the options set on it since `curl_easy_init` or `curl_easy_reset`, oldest
-- first.
pub record Easy : Type 0 where
  pub handle : ℕ
  pub settings : List Setting

-- A completion handler, and whether its associated cancellation slot is connected.
pub record Handler : Type 0 where
  pub name : ℕ
  pub slot_connected : Bool

-- A node. Its address is its easy handle's, which it keeps for life. `none` is a null list, and a
-- handler that has been moved from.
pub record Transfer : Type 0 where
  pub eh : Easy
  pub headers : Option (List Bytes)
  pub body : Bytes
  pub buffer : Bytes
  pub header_buffer : Bytes
  pub handler : Option Handler
  pub id : ℕ
  pub scrub_on_done : Bool

-- `success` is the empty error code, `curl` a CURLcode in curl_category.
pub data ErrorCode : Type 0 where
  success : ErrorCode
  curl : ℕ → ErrorCode
  operation_aborted : ErrorCode

-- A call of a completion handler.
pub record Completion : Type 0 where
  pub handler : Option Handler
  pub error : ErrorCode
  pub response : Response

-- The calls to libcurl and to the cancellation slots, as far as they are not option settings.
-- `slist_built` is the loop of curl_slist_append, which leaves `none`, a null list, for no header.
pub data Call : Type 0 where
  easy_init : ℕ → Call
  easy_cleanup : ℕ → Call
  add_handle : ℕ → Call
  add_handle_failed : ℕ → Call
  remove_handle : ℕ → Call
  slist_built : Option (List Bytes) → Call
  slist_free : Option (List Bytes) → Call
  slot_assign : ℕ → ℕ → Call

-- The members of Client that transfers use. `posted` are the completions handed to `net::post`, and
-- `delivered` those called at once, both newest first; `calls` are the calls made so far, newest
-- first.
pub record Transfers : Type 0 where
  pub transfers : List Transfer
  pub idle : List Transfer
  pub max_pooled_handles : ℕ
  pub running : ℕ
  pub next_transfer_id : ℕ
  pub posted : List Completion
  pub delivered : List Completion
  pub calls : List Call
