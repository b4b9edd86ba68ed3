-- ===== src/Service/Tests.antt =====
-- A process with one configuration, a malformed request, and one that is streamed.
use flow_proxy.Base.{ℕ, ◌≡◌, refl, Bool, true, false, List, [], Bytes, Result, some, ◌∷◌, ◌++◌, ok}
use flow_proxy.Json.{arr, cons, nil}
use flow_proxy.Config.Tests.{usable}
use flow_proxy.Failover.Tests.{services}
use flow_proxy.RequestFilter.Rules.{Request}
use flow_proxy.Forwarding.{UpstreamCall, started, no_thread}
use flow_proxy.Forwarding.Tests.{env, request}
use flow_proxy.Streaming.Machine.{Upstream, worker_runs, main_runs, Event}
use flow_proxy.Streaming.Tests.{plain}
use flow_proxy.Streaming.Machine.Progress.{IsThread}
use flow_proxy.Service.{Earlier, web, proxied, after_all, serve}
use flow_proxy.Service.Completes.{IsAnswered}
use flow_proxy.Service.FromMain.{launched_completes}
use flow_proxy.Cli.Main.{read_defaults}
use flow_proxy.Cli.Tests.{host, world, command_line, launches, child_starts}
use flow_proxy.ProcessServices.{initialize}
use flow_proxy.ProcessServices.Tests.{system, process_logs}

abbrev http : UpstreamCall → Upstream
http call = ok plain

abbrev before : List Earlier
before =
    web (record { now = 0; later = 1; setup = no_thread; request = request })
    ∷ proxied 3 4 request
    ∷ []

abbrev set_url : Request → Bytes → Result Request
set_url r url = ok (record r { path = some url })

abbrev steady : ℕ → Bool × ℕ
steady n = (false, n)

abbrev first_steps : List Event
first_steps = worker_runs false 2 ∷ main_runs ∷ []

launched_completes_example :
    (◌≡◌ {A = Bool} true true)
    × (initialize (ok true) (ok (arr (cons usable nil))) ≡ ok services)
    × IsAnswered env http 7 8 request (after_all env http set_url services before) (
        serve env http first_steps steady
          (record { now = 7; later = 8; setup = started; request = request })
          (after_all env http set_url services before))
unfolding IsThread read_defaults
launched_completes_example =
    launched_completes host system env http set_url world command_line _ process_logs services
      before 7 8 request first_steps steady refl refl launches child_starts
      (λ p. (p.client_id ++ p.tenant ++ p.client_secret, refl)) (λ b e q. cc)
      (record {
        method = tt;
        path = (_, refl);
        headers = (((_, refl), (_, refl)), (((_, refl), (_, refl)), (((_, refl), (_, refl)), tt)));
      })
      (refl, refl) (tt, (tt, tt))
