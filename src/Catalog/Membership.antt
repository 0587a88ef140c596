-- ===== src/Catalog/Membership.antt =====
-- src/llmbroker/broker/catalog.py: the half of `_reconcile` that changes the pool's membership, and
-- `_resync_disabled` on the flags that the store holds.
pub mod Mirrors
use llmbroker.Base.{
  ℕ, suc, String, Bool, true, false, not, Option, none, some, List, [], ◌∷◌, map, Dict, keys,
  filter, mem, if◌then◌else◌,
}
use llmbroker.Models.{LlmConfig}
use llmbroker.Merge.{names}
use llmbroker.Pool
use llmbroker.Pool.{Pool}

unfoldable pub drop_all : List String → Pool → Pool
drop_all [] p = p
drop_all (name ∷ rest) p = drop_all rest (Pool.drop name p)

-- `for order, cfg in enumerate(stored)`, from an order on.
unfoldable pub add_all : ℕ → List LlmConfig → Pool → Pool
add_all order [] p = p
add_all order (cfg ∷ stored) p = add_all (suc order) stored (Pool.add cfg (some order) p)

unfoldable pub reconcile : List LlmConfig → Pool → Pool
reconcile stored p =
    add_all 0 stored (drop_all (filter (λ name. not (mem name (names stored))) (keys p.slots)) p)

-- The flags of the store's disabled map, in its order.
unfoldable pub resync_disabled : Dict Bool → Pool → Pool
resync_disabled [] p = p
resync_disabled ((name, flag) ∷ rest) p =
    resync_disabled rest (if flag then Pool.set_disabled name p else Pool.clear_disabled name p)
