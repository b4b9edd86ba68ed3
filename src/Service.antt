-- ===== src/Service.antt =====
-- The parts together: a process that has read its secrets answers requests, one call of a plugin
-- after the other; the worker of a request and the main thread then go on in any order.
-- flow_proxy_plugin/plugins/web_server_plugin.py (`handle_request` and what it starts) over
-- flow_proxy_plugin/utils/process_services.py.
pub mod Completes
pub mod FromMain
pub mod Tests
use flow_proxy.Base.{ℕ, zero, suc, Bool, List, [], ◌∷◌, ◌++◌, Bytes, Exc, Result}
use flow_proxy.Failover.{Services}
use flow_proxy.RequestFilter.Rules.{Request}
use flow_proxy.Forwarding.{
  Platform, UpstreamCall, Outcome, calling, refused, raising, Setup, handle_request,
}
use flow_proxy.ProxyPlugin
use flow_proxy.ProxyPlugin.{before_upstream_connection}
use flow_proxy.Streaming.Machine.{Upstream, World, start, Event, run}
use flow_proxy.Streaming.Machine.Measure.{left}
use flow_proxy.Streaming.Machine.Progress.{fair}

-- What a request comes to: a streamed answer, an error response, or an exception.
pub data Reply : Type 0 where
  streamed : World → Reply
  answered : Bytes → Reply
  raised : Exc → Reply

-- A call of the handler: the times that it reads, and how making the pipe and the thread goes.
pub record Arrival : Type 0 where
  pub now : ℕ
  pub later : ℕ
  pub setup : Setup
  pub request : Request

-- The first turns of both threads.
pub turns : ℕ → (ℕ → Bool × ℕ) → List (Bool × ℕ)
turns zero t = []
turns (suc n) t = t n ∷ turns n t

-- What httpx does with a call is a parameter.
module _ (env : Platform) (http : UpstreamCall → Upstream) where
  -- Any beginning of the two threads, and then as many turns of both as the request needs.
  pub stream_out : List Event → (ℕ → Bool × ℕ) → UpstreamCall → World
  unfolding turns
  stream_out es t call =
      let begun = run env.lower (start (http call)) es in
      run env.lower (start (http call)) (es ++ fair (turns (suc (left begun)) t))

  pub reply : List Event → (ℕ → Bool × ℕ) → Outcome → Reply
  unfolding stream_out
  reply es t (calling call) = streamed (stream_out es t call)
  reply es t (refused response) = answered response
  reply es t (raising e) = raised e

  unfoldable pub handle : Arrival → Services → Outcome × Services
  unfolding handle_request
  handle a s = handle_request env a.setup a.now a.later a.request s

  unfoldable pub serve : List Event → (ℕ → Bool × ℕ) → Arrival → Services → Reply
  unfolding reply
  serve es t a s = reply es t (handle a s).0

-- A call of the web server's handler, or a request to the proxy with the times that it reads.
pub data Earlier : Type 0 where
  web : Arrival → Earlier
  proxied : ℕ → ℕ → Request → Earlier

-- Both plugins have the services of the process, and sign alike.
module _ (env : Platform) (http : UpstreamCall → Upstream)
    (set_url : Request → Bytes → Result Request) where
  abbrev pub proxy : ProxyPlugin.Platform
  proxy = record { decode = env.decode; set_url = set_url; encode = env.encode }

  unfoldable pub after_one : Earlier → Services → Services
  unfolding handle before_upstream_connection
  after_one (web a) s = (handle env http a s).1
  after_one (proxied now later request) s = (before_upstream_connection proxy now later request s).1

  -- The services after these calls.
  unfoldable pub after_all : Services → List Earlier → Services
  unfolding after_one
  after_all s [] = s
  after_all s (e ∷ es) = after_all (after_one e s) es
