-- ===== src/Plugins/Tests.antt =====
-- Connections to a server whose pool has room for one instance.
use mathlib.Core.List.{Nodup}
use flow_proxy.Base.{ℕ, ◌≤◌, ◌≡◌, refl, inl, inr, none, some, All, nat_eq, List, [], ◌∷◌}
use flow_proxy.LoadBalancer.{remove}
use flow_proxy.PluginPool.{acquire, release}
use flow_proxy.Plugins.{
  ServerEvent, connects, streams, closes, new_server, connect, close, stream, run,
}
use flow_proxy.Plugins.Proxy.{
  ProxyEvent, opens, shuts, new_class, new_proxy, on_upstream_connection_close, proxy_run,
}
use flow_proxy.Plugins.Proxy.Served.{IsAnswer, IsServed, IsPooled, new_proxy-IsAnswer}
use flow_proxy.Plugins.Lifecycle.{IsBound, IsTidy, all_numbers, connect-IsBound}

-- Two connections at once; the first has a stream, and its instance is used again.
abbrev day : List (ServerEvent ℕ)
day = connects 10 ∷ connects 20 ∷ streams 0 3 ∷ closes 0 ∷ connects 30 ∷ closes 1 ∷ closes 0 ∷ []

used_again : (connect 40 (run (new_server 1) day)).in_use ≡ 1 ∷ []
unfolding run connect close stream acquire release remove
used_again = refl

-- An instance that is closed twice serves two connections at once.
shared :
    (run {C = ℕ}
      (new_server 2)
      (connects 10 ∷ closes 0 ∷ closes 0 ∷ connects 20 ∷ connects 30 ∷ [])).in_use
    ≡ 0 ∷ 0 ∷ []
unfolding run connect close acquire release remove
shared = refl

connect-IsBound_example :
    IsBound 40 (run (new_server 1) day) (connect 40 (run (new_server 1) day))
    × Nodup (all_numbers (connect 40 (run (new_server 1) day)))
    × IsTidy (connect 40 (run (new_server 1) day))
unfolding run connect close stream acquire release remove
connect-IsBound_example = connect-IsBound 1 day 40 (refl, (refl, (refl, (refl, tt))))

-- The services cannot be had for the first connection; the pool has room for one instance.
abbrev mornings : List (ProxyEvent ℕ)
mornings =
    opens 10 none ∷ opens 20 (some 0) ∷ opens 30 (some 0) ∷ shuts 0 ∷ opens 40 none ∷ shuts 1 ∷ []

logged_once : (proxy_run 1 new_class mornings).lines ≡ 1
unfolding proxy_run new_proxy on_upstream_connection_close acquire release
logged_once = refl

new_proxy-IsAnswer_example :
    IsAnswer 1 0 50 none (new_proxy 1 50 none (proxy_run 1 new_class mornings)).0
    × All (IsServed 1 0) (new_proxy 1 50 none (proxy_run 1 new_class mornings)).1.in_use
    × IsPooled 1 0 (new_proxy 1 50 none (proxy_run 1 new_class mornings)).1.proxy_pool
    × ((new_proxy 1 50 none (proxy_run 1 new_class mornings)).1.lines ≤ 1)
new_proxy-IsAnswer_example =
    new_proxy-IsAnswer 1 0 mornings 50 none
      (inl refl, (inr refl, (inr refl, (tt, (inl refl, (tt, tt)))))) (inl refl)
