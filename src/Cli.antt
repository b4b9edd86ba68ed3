-- ===== src/Cli.antt =====
-- flow_proxy_plugin/cli.py: the settings that the command line and the environment come to, and
-- the arguments for proxy.py. `argparse`, `int` of a text and of a
-- floating-point number, the type of these numbers, and the number of CPUs are parameters.
pub mod Limits
pub mod Main
pub mod Tests
use flow_proxy.Base.{
  ℕ, zero, suc, ℤ, pos, negsuc, Bool, true, false, ◌&&◌, not, Option, none, some, List, [], ◌∷◌,
  ◌++◌, Text, codes, text_eq, nat_eq, ◌==◌, show, ltb, if◌then◌else◌, Result, ok, err, ◌>>=◌,
}

pub show_int : ℤ → Text
show_int (pos n) = show n
show_int (negsuc n) = codes "-" ++ show (suc n)

pub record Arguments (F : Type 0) : Type 0 where
  pub host : Text
  pub port : ℤ
  pub num_workers : Option ℤ
  pub no_threaded : Bool
  pub client_timeout : F

-- `FLOW_PROXY_NUM_WORKERS` and `FLOW_PROXY_THREADED`, the number of CPUs, `int` of a text, and `int`
-- of a floating-point number, which drops the fraction and raises for what is not finite.
pub record Machine (F : Type 0) : Type 0 where
  pub workers_variable : Option Text
  pub threaded_variable : Option Text
  pub cpu_count : ℕ
  pub int : Text → Result ℤ
  pub int_of : F → Result ℤ

pub record RuntimeConfig : Type 0 where
  pub num_workers : ℤ
  pub threaded : Bool
  pub client_timeout : ℕ
  -- A warning was logged.
  pub warned : Bool

or_text : Option Text → Text → Text
or_text none default = default
or_text (some t) default = t

-- `n or multiprocessing.cpu_count()`
or_cpu_count : ℕ → ℤ → ℤ
or_cpu_count cpus (pos zero) = pos cpus
or_cpu_count cpus n = n

workers_of : {F : Type 0} → Machine F → Option ℤ → Result ℤ
unfolding or_text or_cpu_count
workers_of m (some n) = ok n
workers_of m none =
    m.int (or_text m.workers_variable (codes "0")) >>= (λ n. ok (or_cpu_count m.cpu_count n))

-- `max(1, min(86400, n))`
pub clamped : ℤ → ℕ
clamped (pos n) = if ltb n 1 then 1 else if ltb 86400 n then 86400 else n
clamped (negsuc n) = 1

pub differs : ℕ → ℤ → Bool
differs t (pos n) = not (t == n)
differs t (negsuc n) = true

unfoldable pub resolve_runtime_config :
    {F : Type 0} → Machine F → Arguments F → Result RuntimeConfig
unfolding workers_of or_text clamped differs
resolve_runtime_config m args = do
  num_workers ← workers_of m args.num_workers
  seconds ← m.int_of args.client_timeout
  ok (record {
    num_workers = num_workers;
    threaded = not args.no_threaded && (or_text m.threaded_variable (codes "1") == codes "1");
    client_timeout = clamped seconds;
    warned = differs (clamped seconds) seconds;
  })

unfoldable pub build_proxy_args : {F : Type 0} → Arguments F → RuntimeConfig → List Text
unfolding show_int
build_proxy_args args c =
    (codes "--hostname"
      ∷ args.host
      ∷ codes "--port"
      ∷ show_int args.port
      ∷ codes "--num-workers"
      ∷ show_int c.num_workers
      ∷ codes "--timeout"
      ∷ show c.client_timeout
      ∷ codes "--plugins"
      ∷ codes
          "flow_proxy_plugin.plugins.proxy_plugin.FlowProxyPlugin,flow_proxy_plugin.plugins.web_server_plugin.FlowProxyWebServerPlugin"
      ∷ codes "--enable-web-server"
      ∷ [])
    ++ (if c.threaded then codes "--threaded" ∷ [] else [])
