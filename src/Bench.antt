-- ===== src/Bench.antt =====
-- The benchmark drivers in bench/: bench_util.h, bench_cofetch.cpp, bench_epoll.cpp, bench_cpr.cpp and
-- bench_httplib.cpp.
pub mod Throughput
pub mod Shares
pub mod Chain
pub mod Pool
pub mod Polled
pub mod Report
pub mod Cells
pub mod Rows
use cofetch.Base.{
  ℕ, Bool, true, false, ◌&&◌, List, [], ◌∷◌, Option, none, some, ◌==◌, if◌then◌else◌, ℤ, pos,
}
use cofetch.Response.{Bytes}

pub record Args : Type 0 where
  pub scenario : Bytes
  pub base_url : Bytes
  pub total : ℤ
  pub concurrency : ℤ

-- `atoi` is the C library's.
module _ (atoi : Bytes → ℤ) where
  -- The fourth word if there is one, else 1.
  unfoldable pub concurrency_of : List Bytes → ℤ
  concurrency_of [] = pos 1
  concurrency_of (w ∷ ws) = atoi w

  -- parse, on `argv`; `none` is the usage message and the exit code 2.
  unfoldable pub parse : List Bytes → Option Args
  unfolding concurrency_of
  parse (name ∷ scenario ∷ url ∷ total ∷ more) = some (record {
    scenario = scenario;
    base_url = url;
    total = atoi total;
    concurrency = concurrency_of more;
  })
  parse _ = none

unfoldable pub same_text : Bytes → Bytes → Bool
same_text [] [] = true
same_text [] (y ∷ t) = false
same_text (x ∷ s) [] = false
same_text (x ∷ s) (y ∷ t) = x == y && same_text s t

-- "throughput"
abbrev pub throughput_name : Bytes
throughput_name = b't' ∷ b'h' ∷ b'r' ∷ b'o' ∷ b'u' ∷ b'g' ∷ b'h' ∷ b'p' ∷ b'u' ∷ b't' ∷ []

-- "chain"
abbrev pub chain_name : Bytes
chain_name = b'c' ∷ b'h' ∷ b'a' ∷ b'i' ∷ b'n' ∷ []

-- `failed != 0`
abbrev pub failed_code : ℕ → ℕ
failed_code failed = if failed == 0 then 0 else 1
