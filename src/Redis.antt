-- ===== src/Redis.antt =====
-- common/redis/redis-transaction.ts, and the part of the Redis client that the services use.
use trustflow_backend.Prelude.{
  ℕ, String, ◌<>◌, Option, none, some, List, [], ◌∷◌, Bool, true, false,
}
use trustflow_backend.Prelude.Exec.{
  FailureReason, aborted, command_failed, Error, transaction, Result, ok, err, Exec,
}

-- What a promise of the client settles to.
pub data Reply {ℓ} (A : Type ℓ) : Type ℓ where
  replied : A → Reply A
  rejected : String → Reply A

-- The commands that the services send alone or queue between MULTI and EXEC; `set_ex` is SET with EX.
pub data Command : Type 0 where
  set : String → String → Command
  del : String → Command
  zadd : String → ℕ → String → Command
  zrem : String → String → Command
  sadd : String → String → Command
  srem : String → String → Command
  expire : String → ℕ → Command
  set_ex : String → String → ℕ → Command
  del_many : List String → Command
  srem_many : String → List String → Command
  watch : String → Command
  unwatch : Command
  publish : String → String → Command
  lpush : String → String → Command
  ltrim : String → ℕ → ℕ → Command

-- `null`, or for each queued command its error, if it has one.
abbrev pub ExecResults : Type 0
ExecResults = Option (List (Option String))

-- RedisTransactionError.mayBePartiallyApplied
pub may_be_partially_applied : FailureReason → Bool
may_be_partially_applied aborted = false
may_be_partially_applied command_failed = true

-- The `for (const [error] of results)` loop.
unfoldable pub check_results : List (Option String) → Result (Unit {0})
check_results [] = ok tt
check_results (none ∷ rs) = check_results rs
check_results (some m ∷ rs) =
    err (transaction command_failed ("Redis transaction command failed: " <> m))

unfoldable pub applied : ExecResults → Result (Unit {0})
unfolding check_results
applied none = err (
    transaction aborted
      "Redis transaction aborted (exec() returned null — a WATCH conflict, or an explicit DISCARD)")
applied (some rs) = check_results rs

abbrev pub assert_transaction_applied : {S : Type 0} → ExecResults → Exec S (Unit {0})
assert_transaction_applied rs s = (applied rs, s)

abbrev pub is_transaction_integrity_error : Error → Bool
is_transaction_integrity_error (transaction r m) = true
is_transaction_integrity_error _ = false
