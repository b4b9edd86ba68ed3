-- ===== src/Plugins.antt =====
-- How the instances of FlowProxyWebServerPlugin are made, bound to connections and given back:
-- flow_proxy_plugin/plugins/web_server_plugin.py, `__new__`, `__init__`, `_rebind` and the close of
-- a connection, with flow_proxy_plugin/utils/plugin_pool.py. proxy.py calls one at a time. Services
-- and log lines are left out; `Proxy` has them, for the other plugin class. What proxy.py keeps of
-- a connection has any type.
pub mod Numbers
pub mod Objects
pub mod Lifecycle
pub mod Proxy
pub mod Tests
use flow_proxy.Base.{
  ℕ, ◌+◌, ◌==◌, nat_eq, Bool, true, false, Option, none, some, List, [], ◌∷◌, if◌then◌else◌,
}
use flow_proxy.LoadBalancer.{remove}
use flow_proxy.PluginPool.{Pool, acquire, release}

module _ {ℓ} (C : Type ℓ) where
  -- `streaming_state` is that of a request under way.
  pub record Plugin : Type ℓ where
    pub connection : Option C
    pub pooled : Bool
    pub streaming_state : Option ℕ

  -- The objects by their identities, which the pool and the connections share; the pool of the
  -- class, the instance of each open connection, and how many connections there were.
  pub record Server : Type ℓ where
    pub objects : ℕ → Plugin
    pub pool : Pool ℕ
    pub in_use : List ℕ
    pub made : ℕ

-- The pool has identities: a new instance has the number of its connection, and neither a rebinding
-- nor a reset changes which instance it is.
abbrev pub new_number : ℕ → ℕ
new_number n = n

abbrev pub kept_number : ℕ → ℕ → ℕ
kept_number args n = n

module _ {ℓ} {C : Type ℓ} where
  -- `object.__new__`
  abbrev blank : Plugin C
  blank = record { connection = none; pooled = false; streaming_state = none }

  -- `__init__`
  init_pooled : C → Plugin C → Bool → Plugin C
  init_pooled c i true = i
  init_pooled c i false = record { connection = some c; streaming_state = none; pooled = true }

  init : C → Plugin C → Plugin C
  unfolding init_pooled
  init c i = init_pooled c i i.pooled

  pub create : C → Plugin C
  unfolding init
  create c = init c blank

  -- `_rebind`
  pub rebind : C → Plugin C → Plugin C
  rebind c i = record i { connection = some c; pooled = true; streaming_state = none }

  -- What `_reset_request_state` leaves.
  pub reset : Plugin C → Plugin C
  reset i = record i { streaming_state = none }

  pub set_object : ℕ → Plugin C → (ℕ → Plugin C) → ℕ → Plugin C
  set_object n i objects k = if k == n then i else objects k

  abbrev pub new_server : ℕ → Server C
  new_server max_size = record {
    objects = λ n. blank;
    pool = record { instances = []; max_size = max_size };
    in_use = [];
    made = 0;
  }

  -- What `acquire` did to the instance that it gives.
  acquired : C → Server C → ℕ → Plugin C
  unfolding create rebind
  acquired c s n = if n == s.made then create c else rebind c (s.objects n)

  -- `__new__`, and the call of `__init__` that Python adds to it.
  connected : C → Server C → ℕ × Pool ℕ → Server C
  unfolding init acquired set_object
  connected c s (n, pool) = record {
    objects = set_object n (init c (acquired c s n)) s.objects;
    pool = pool;
    in_use = n ∷ s.in_use;
    made = s.made + 1;
  }

  unfoldable pub connect : C → Server C → Server C
  unfolding connected
  connect c s = connected c s (acquire new_number kept_number new_number s.pool s.made)

  give_back : ℕ → Server C → Server C
  unfolding set_object reset
  give_back n s = record s {
    objects = set_object n (reset (s.objects n)) s.objects;
    pool = release new_number kept_number new_number s.pool n;
  }

  without : ℕ → Server C → Server C
  without n s = record s { in_use = remove n s.in_use }

  -- `on_client_connection_close`, of any instance, also one whose connection is closed already.
  unfoldable pub close : ℕ → Server C → Server C
  unfolding without give_back
  close n s = without n (if (s.objects n).pooled then give_back n s else s)

  -- A request on an instance starts a stream.
  unfoldable pub stream : ℕ → ℕ → Server C → Server C
  unfolding set_object
  stream n state s = record s {
    objects = set_object n (record (s.objects n) { streaming_state = some state }) s.objects;
  }

pub data ServerEvent {ℓ} (C : Type ℓ) : Type ℓ where
  connects : C → ServerEvent C
  streams : ℕ → ℕ → ServerEvent C
  closes : ℕ → ServerEvent C

module _ {ℓ} {C : Type ℓ} where
  unfoldable pub run : Server C → List (ServerEvent C) → Server C
  run s [] = s
  run s (connects c ∷ es) = run (connect c s) es
  run s (streams n state ∷ es) = run (stream n state s) es
  run s (closes n ∷ es) = run (close n s) es
