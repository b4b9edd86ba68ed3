-- ===== src/Service/Completes.antt =====
-- From the start of the process to the complete response.
use flow_proxy.Base.{
  ℕ, zero, suc, ◌<◌, ◌≡◌, refl, sym, subst, inl, inr, true, Bool, List, [], ◌∷◌, All, length, Bytes,
  Exc, Result, ok, err, arith,
}
use flow_proxy.Json.{Json}
use flow_proxy.Failover.{Services, get_config_and_token}
use flow_proxy.Failover.Outcome.{IsTotal}
use flow_proxy.ProcessServices.{initialize}
use flow_proxy.ProcessServices.Startup.{IsReady, initialize-IsReady, granted-IsReady}
use flow_proxy.RequestFilter.Rules.{Request}
use flow_proxy.Forwarding.{Platform, UpstreamCall, calling, started, is_undecodable, handle_request}
use flow_proxy.Forwarding.Accepts.{IsReadable, handle_request_calls}
use flow_proxy.Forwarding.Headers.{Lowers}
use flow_proxy.Forwarding.Handler.{IsBacked, handle_request-IsBacked, handle_request-next}
use flow_proxy.ProxyPlugin.Requests.{before_upstream_connection-next}
use flow_proxy.Streaming.Machine.{Upstream, World, AccessLine, start, Event, run}
use flow_proxy.Streaming.Machine.Measure.{left}
use flow_proxy.Streaming.Machine.Progress.{IsThread, stream_completes}
use flow_proxy.Streaming.Machine.Client.{expected_client, expected_bytes, expected_status}
use flow_proxy.Service.{
  Reply, streamed, Arrival, Earlier, web, proxied, proxy, turns, stream_out, reply, handle, serve,
  after_one, after_all,
}

length-turns : (n : ℕ) (t : ℕ → Bool × ℕ) → length (turns n t) ≡ n
unfolding turns
length-turns zero t = refl
length-turns (suc n) t = rw (length-turns n t) omega arith

module _ (env : Platform) (http : UpstreamCall → Upstream) where
  handle-IsReady :
      (a : Arrival) (s : Services)
      → IsReady env.encode s
      → IsTotal env.encode
      → IsReady env.encode (handle env http a s).1
  unfolding handle
  handle-IsReady a s ready total =
      let (g, given, next) = granted-IsReady env.encode a.now a.later s ready total in
      elim (handle_request-next env a.setup a.now a.later a.request s) [
        | inl same ↦ subst (IsReady env.encode) (sym same) ready
        | inr granted ↦ subst (IsReady env.encode) (sym granted) next
      ]

  -- The reply is a stream that is over: its call stands on a grant of the request and on the
  -- request itself, the client has the
  -- whole response of the upstream, and one access line says so.
  pub record IsAnswered (now later : ℕ) (request : Request) (s : Services) (r : Reply)
      : Type 0 where
    pub next : Services
    pub call : UpstreamCall
    pub backed : IsBacked env now later request s next call
    pub world : World
    pub streaming : r ≡ streamed world
    pub sent : world.front.client ≡ expected_client env.lower (http call)
    pub line : AccessLine
    pub logged : world.access_log ≡ line ∷ []
    pub bytes : line.bytes ≡ expected_bytes env.lower (http call)
    pub status : line.status ≡ expected_status env.lower (http call)

  called-IsAnswered :
      (es : List Event) (t : ℕ → Bool × ℕ) (now later : ℕ) (request : Request) (s next : Services)
      (call : UpstreamCall)
      → Lowers env.lower
      → All IsThread es
      → handle_request env started now later request s ≡ (calling call, next)
      → IsAnswered now later request s (
          serve env http es t
            (record { now = now; later = later; setup = started; request = request })
            s)
  unfolding serve reply handle stream_out
  called-IsAnswered es t now later request s next call lowers threads h =
      let u = http call in
      let n = suc (left (run env.lower (start u) es)) in
      let enough : left (run env.lower (start u) es) < length (turns n t) =
        rw (length-turns n t) omega arith in
      let (sent, line, logged, bytes, status) =
        stream_completes env.lower u es (turns n t) threads enough in
      record {
        next = next;
        call = call;
        backed = handle_request-IsBacked env started request now later s next call lowers h;
        world = stream_out env http es t call;
        streaming = λ i. reply env http es t (h i).0;
        sent = sent;
        line = line;
        logged = logged;
        bytes = bytes;
        status = status;
      }

module _ (env : Platform) (http : UpstreamCall → Upstream)
    (set_url : Request → Bytes → Result Request) where
  after_one-IsReady :
      (e : Earlier) (s : Services)
      → IsReady env.encode s
      → IsTotal env.encode
      → IsReady env.encode (after_one env http set_url e s)
  unfolding after_one
  after_one-IsReady (web a) s ready total = handle-IsReady env http a s ready total
  after_one-IsReady (proxied now later request) s ready total =
      let (g, given, next) = granted-IsReady env.encode now later s ready total in
      elim (before_upstream_connection-next (proxy env http set_url) now later request s) [
        | inl same ↦ subst (IsReady env.encode) (sym same) ready
        | inr granted ↦ subst (IsReady env.encode) (sym granted) next
      ]

  after_all-IsReady :
      (earlier : List Earlier) (s : Services)
      → IsReady env.encode s
      → IsTotal env.encode
      → IsReady env.encode (after_all env http set_url s earlier)
  unfolding after_all
  after_all-IsReady [] s ready total = ready
  after_all-IsReady (e ∷ es) s ready total =
      after_all-IsReady es (after_one env http set_url e s) (after_one-IsReady e s ready total)
        total

  -- Where the process could be set up, signing raises for no payload, and `json.loads` raises
  -- nothing but the two errors that are caught: after any earlier requests to both plugins, well or badly formed,
  -- a request whose bytes decode, and whose pipe and thread can be made, is sent upstream on a
  -- grant of its own: with its own method, path and body, filtered by the rule that matches it, and
  -- with the token of the grant. This is for a `str.lower` that is right on the names of the two
  -- headers that the proxy sets. While the client stays, and whatever the two threads have done, once both had
  -- the turns that are left, the client was queued the whole of the upstream's response, and the
  -- access log has its one line.
  pub request_completes :
      (present : Result Bool) (read : Result Json) (s : Services) (earlier : List Earlier)
      (now later : ℕ) (request : Request) (es : List Event) (t : ℕ → Bool × ℕ)
      → initialize present read ≡ ok s
      → IsTotal env.encode
      → ((b : Bytes) (e : Exc) → env.loads_bytes b ≡ err e → is_undecodable e.cls ≡ true)
      → IsReadable env request
      → Lowers env.lower
      → All IsThread es
      → IsAnswered env http now later request (after_all env http set_url s earlier) (
          serve env http es t
            (record { now = now; later = later; setup = started; request = request })
            (after_all env http set_url s earlier))
  request_completes present read s earlier now later request es t set_up total json readable lowers
        threads =
      let here = after_all env http set_url s earlier in
      let ready =
        after_all-IsReady earlier s (initialize-IsReady env.encode present read s set_up) total in
      let (g, given, _) = granted-IsReady env.encode now later here ready total in
      let (call, h) =
        handle_request_calls env json now later request here _ g readable
          (λ i. (given i, (get_config_and_token env.encode now later here).1)) in
      called-IsAnswered env http es t now later request here _ call lowers threads h
