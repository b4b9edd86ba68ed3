-- ===== src/Plugins/Proxy.antt =====
-- flow_proxy_plugin/plugins/proxy_plugin.py: how FlowProxyPlugin's instances are made, given
-- services, bound to connections and given back, with `_init_services` of
-- flow_proxy_plugin/plugins/base_plugin.py. proxy.py makes one call at a time; what it keeps of a
-- connection has any type. The services are a number, or none where `ProcessServices.get` raises.
pub mod Served
use flow_proxy.Base.{
  ℕ, zero, suc, ◌+◌, Bool, true, false, Option, none, some, List, [], ◌∷◌, if◌then◌else◌,
}
use flow_proxy.PluginPool.{Pool, acquire, release}

module _ {ℓ} (C : Type ℓ) where
  pub record ProxyPlugin : Type ℓ where
    pub connection : Option C
    pub services : Option ℕ
    pub pooled : Bool

  -- The class's pool and `_log_once`, the instances in use, and how often the line of the first
  -- initialization was logged.
  pub record ProxyClass : Type ℓ where
    pub proxy_pool : Option (Pool ProxyPlugin)
    pub log_once : Bool
    pub in_use : List ProxyPlugin
    pub lines : ℕ

module _ {ℓ} {C : Type ℓ} where
  -- `_init_services`; where it raises, the instance is left without `_pooled`.
  init_services : Option ℕ → ProxyPlugin C → ProxyPlugin C
  init_services none i = i
  init_services (some k) i = record i { services = some k; pooled = true }

  first_init : C → Option ℕ → ProxyPlugin C → Bool → ProxyPlugin C
  unfolding init_services
  first_init c services i true = i
  first_init c services i false = init_services services (record i { connection = some c })

  -- `__init__`
  init_proxy : C → Option ℕ → ProxyPlugin C → ProxyPlugin C
  unfolding first_init
  init_proxy c services i = first_init c services i i.pooled

  pub create_proxy : C × Option ℕ → ProxyPlugin C
  unfolding init_proxy
  create_proxy (c, services) =
      init_proxy c services (record { connection = none; services = none; pooled = false })

  -- `_rebind`
  pub rebind_proxy : C × Option ℕ → ProxyPlugin C → ProxyPlugin C
  rebind_proxy (c, services) i = record i { connection = some c; pooled = true }

  -- There is no state of a request.
  pub reset_proxy : ProxyPlugin C → ProxyPlugin C
  reset_proxy i = i

  -- `if _proxy_pool is None: _proxy_pool = PluginPool(cls, max_size=…)`
  pub pool_of : ℕ → Option (Pool (ProxyPlugin C)) → Pool (ProxyPlugin C)
  pool_of max_size none = record { instances = []; max_size = max_size }
  pool_of max_size (some pool) = pool

  -- The line of the first `__init__` that gets to its end; the pool was empty if this one did.
  log_first : List (ProxyPlugin C) → ProxyClass C → ProxyClass C
  log_first [] s = if s.log_once then s else record s { log_once = true; lines = s.lines + 1 }
  log_first (i ∷ is) s = s

  -- An instance without `_pooled` is none: its `__init__` raised. On any other one Python calls
  -- `__init__` again.
  obtained :
      C
      → Option ℕ
      → ProxyClass C
      → List (ProxyPlugin C)
      → ProxyPlugin C × Pool (ProxyPlugin C)
      → Option (ProxyPlugin C) × ProxyClass C
  unfolding init_proxy log_first
  obtained c services s before (i, pool) =
      if i.pooled
      then (
        some (init_proxy c services i),
        log_first before
            (record s { proxy_pool = some pool; in_use = init_proxy c services i ∷ s.in_use }),
      )
      else (none, record s { proxy_pool = some pool })

  -- `FlowProxyPlugin(...)`: `__new__` and `__init__`.
  unfoldable pub new_proxy : ℕ → C → Option ℕ → ProxyClass C → Option (ProxyPlugin C) × ProxyClass C
  unfolding obtained pool_of create_proxy rebind_proxy reset_proxy
  new_proxy max_size c services s =
      obtained c services s (pool_of max_size s.proxy_pool).instances (
        acquire create_proxy rebind_proxy reset_proxy (pool_of max_size s.proxy_pool) (c, services))

  released : Option (Pool (ProxyPlugin C)) → ProxyPlugin C → Bool → Option (Pool (ProxyPlugin C))
  unfolding create_proxy rebind_proxy reset_proxy
  released (some pool) i true = some (release create_proxy rebind_proxy reset_proxy pool i)
  released (some pool) i false = some pool
  released none i pooled = none

  kept_before :
      ProxyPlugin C
      → Option (ProxyPlugin C × List (ProxyPlugin C))
      → Option (ProxyPlugin C × List (ProxyPlugin C))
  kept_before i none = none
  kept_before i (some (j, rest)) = some (j, i ∷ rest)

  -- The instance at that place, and the others.
  pub taken_at : ℕ → List (ProxyPlugin C) → Option (ProxyPlugin C × List (ProxyPlugin C))
  unfolding kept_before
  taken_at n [] = none
  taken_at zero (i ∷ is) = some (i, is)
  taken_at (suc n) (i ∷ is) = kept_before i (taken_at n is)

  upstream_closed : ProxyClass C → Option (ProxyPlugin C × List (ProxyPlugin C)) → ProxyClass C
  unfolding released
  upstream_closed s none = s
  upstream_closed s (some (i, rest)) = record s {
    proxy_pool = released s.proxy_pool i i.pooled;
    in_use = rest;
  }

  -- `on_upstream_connection_close` of the instance in use at that place.
  unfoldable pub on_upstream_connection_close : ℕ → ProxyClass C → ProxyClass C
  unfolding upstream_closed taken_at
  on_upstream_connection_close n s = upstream_closed s (taken_at n s.in_use)

  abbrev pub new_class : ProxyClass C
  new_class = record { proxy_pool = none; log_once = false; in_use = []; lines = 0 }

pub data ProxyEvent {ℓ} (C : Type ℓ) : Type ℓ where
  opens : C → Option ℕ → ProxyEvent C
  shuts : ℕ → ProxyEvent C

module _ {ℓ} {C : Type ℓ} where
  unfoldable pub proxy_run : ℕ → ProxyClass C → List (ProxyEvent C) → ProxyClass C
  unfolding new_proxy on_upstream_connection_close
  proxy_run max_size s [] = s
  proxy_run max_size s (opens c services ∷ es) =
      proxy_run max_size (new_proxy max_size c services s).1 es
  proxy_run max_size s (shuts n ∷ es) = proxy_run max_size (on_upstream_connection_close n s) es
