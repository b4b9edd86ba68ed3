-- ===== src/Service/FromMain.antt =====
-- From the call of `main` to the complete response: flow_proxy_plugin/cli.py, the set-up of a
-- process that proxy.py starts, and the requests to it.
use flow_proxy.Base.{ℕ, ◌≡◌, ◌≢◌, true, Bool, List, All, Bytes, Exc, Result, ok, err}
use flow_proxy.Cli.Main.{CommandLine, accepted, Defaults, Host, World, read_defaults, main}
use flow_proxy.Cli.Main.Launch.{launched_services}
use flow_proxy.Failover.{Services}
use flow_proxy.Failover.Outcome.{IsTotal}
use flow_proxy.Forwarding.{Platform, UpstreamCall, started, is_undecodable}
use flow_proxy.Forwarding.Headers.{Lowers}
use flow_proxy.Forwarding.Accepts.{IsReadable}
use flow_proxy.ProcessServices.{initialize}
use flow_proxy.ProcessServices.Initialize.{System, ProcessLogs, process_initialize}
use flow_proxy.RequestFilter.Rules.{Request}
use flow_proxy.Streaming.Machine.{Upstream, Event}
use flow_proxy.Streaming.Machine.Progress.{IsThread}
use flow_proxy.Service.{Earlier, after_all, serve}
use flow_proxy.Service.Completes.{IsAnswered, request_completes}

module _ {F : Type 0} (h : Host F) (sys : System) (env : Platform) (http : UpstreamCall → Upstream)
    (set_url : Request → Bytes → Result Request) where
  -- Where `main` called proxy.py and the services of a process could be set up in the environment
  -- that `main` left: the services come from the secrets file of the command line, which was there
  -- when `main` looked. Where, besides, signing raises for no payload, `json.loads` raises
  -- nothing but the two errors that are caught, and `str.lower` is right on the names of the two
  -- headers that the proxy sets, then after any earlier requests to both plugins a
  -- request whose bytes decode, and whose pipe and thread can be made, is sent upstream on a grant
  -- of its own: the call has the request's method, and its path and body less what the matching
  -- rule takes out, and the grant's token as its Authorization. While the client stays, and whatever its two threads have done, once both had the
  -- turns that are left, the client was queued the whole of the upstream's response, and the access
  -- log has its one line.
  pub launched_completes :
      (w : World) (c : CommandLine F) (d : Defaults F) (logs : ProcessLogs) (s : Services)
      (earlier : List Earlier) (now later : ℕ) (request : Request) (es : List Event)
      (t : ℕ → Bool × ℕ)
      → read_defaults h w.environment ≡ ok d
      → h.parse_args d ≡ accepted c
      → (main h w).1.launched ≢ w.launched
      → (process_initialize sys (main h w).1.environment logs).0 ≡ ok s
      → IsTotal env.encode
      → ((b : Bytes) (e : Exc) → env.loads_bytes b ≡ err e → is_undecodable e.cls ≡ true)
      → IsReadable env request
      → Lowers env.lower
      → All IsThread es
      → (h.exists c.secrets_file ≡ true)
        × (initialize (sys.exists c.secrets_file) (sys.read c.secrets_file) ≡ ok s)
        × IsAnswered env http now later request (after_all env http set_url s earlier) (
            serve env http es t
              (record { now = now; later = later; setup = started; request = request })
              (after_all env http set_url s earlier))
  launched_completes w c d logs s earlier now later request es t read given called made total json
        readable lowers threads =
      let (there, loaded) = launched_services h w c d sys logs s read given called made in
      (
        there,
        loaded,
        request_completes env http set_url (sys.exists c.secrets_file) (sys.read c.secrets_file) s
            earlier now later request es t loaded total json readable lowers threads,
      )
