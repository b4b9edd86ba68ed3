-- ===== src/PluginPool.antt =====
-- flow_proxy_plugin/utils/plugin_pool.py: the pool of plugin instances. The deque is changed under
-- its lock, so a call is one step. An instance is a value of any type; what its class does on
-- creation, on rebinding and on the reset of its request state are parameters.
pub mod Reuse
pub mod Tests
use flow_proxy.Base.{
  ℕ, zero, suc, Bool, Option, none, some, List, [], ◌∷◌, ◌++◌, length, ltb, if◌then◌else◌,
}

pub record Pool {ℓ} (A : Type ℓ) : Type ℓ where
  pub instances : List A
  pub max_size : ℕ

module _ {ℓ} {A : Type ℓ} where
  push_under : A → Option (A × List A) → Option (A × List A)
  push_under a none = some (a, [])
  push_under a (some (last, rest)) = some (last, a ∷ rest)

  -- `deque.pop`: the right end.
  pop_last : List A → Option (A × List A)
  unfolding push_under
  pop_last [] = none
  pop_last (a ∷ rest) = push_under a (pop_last rest)

-- `rebind` and `create` are given the arguments of the connection.
module _ {ℓ κ} {A : Type ℓ} {B : Type κ} (create : B → A) (rebind : B → A → A) (reset : A → A) where
  taken : Pool A → B → Option (A × List A) → A × Pool A
  taken p args none = (create args, p)
  taken p args (some (item, rest)) = (rebind args item, record p { instances = rest })

  unfoldable pub acquire : Pool A → B → A × Pool A
  unfolding taken pop_last
  acquire p args = taken p args (pop_last p.instances)

  unfoldable pub release : Pool A → A → Pool A
  release p a =
      if ltb (length p.instances) p.max_size
      then record p { instances = p.instances ++ reset a ∷ [] }
      else p
