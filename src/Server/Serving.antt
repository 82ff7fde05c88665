-- ===== src/Server/Serving.antt =====
-- server.ts: what each route answers.
use salesforce_tiktok_crm.Http.{HttpResponse}
use salesforce_tiktok_crm.Exec.{Exec, return}
use salesforce_tiktok_crm.Redis.{Redis}
use salesforce_tiktok_crm.World.{World}
use salesforce_tiktok_crm.Auth.Routes
use salesforce_tiktok_crm.EventSet.Routes.{
  provision_route, list_route, create_route, select_route, active_route,
}
use salesforce_tiktok_crm.Server.Routing.{
  Application, HttpRequest, RouteName, health, ready, queue_metrics, begin, callback, status,
  refresh, revoke, provision, list, create, select, active, health_answer, ready_answer,
  metrics_answer,
}

module _ {R : Redis} (a : Application) where
  unfoldable pub serve_route : RouteName → HttpRequest → Exec (World R) HttpResponse
  serve_route health q = λ w. return (health_answer a.setup.env (a.timestamp w.now)) w
  serve_route ready q = return ready_answer
  serve_route queue_metrics q = λ w. return (metrics_answer (a.queue_counts w.now)) w
  serve_route begin q = Routes.begin a.codec a.setup.outside a.app a.setup.digest a.encode
  serve_route callback q =
      Routes.answer_callback a.codec a.setup.outside a.app a.setup.digest a.encode q.query
  serve_route status q = Routes.status a.codec a.setup.outside a.app a.setup.digest a.encode
  serve_route refresh q =
      Routes.refresh_route a.codec a.setup.outside a.app a.setup.digest a.encode q.advertiser_id
  serve_route revoke q =
      Routes.revoke_route a.codec a.setup.outside a.app a.setup.digest a.encode q.advertiser_id
  serve_route provision q =
      provision_route a.codec a.setup.outside a.app a.setup.env a.day q.advertiser_id
        q.event_set_name
  serve_route list q = list_route a.codec a.setup.outside a.app a.setup.env a.day q.advertiser_id
  serve_route create q =
      create_route a.codec a.setup.outside a.app a.setup.env a.day q.advertiser_id q.name
  serve_route select q =
      select_route a.codec a.setup.outside a.app a.setup.env a.day q.advertiser_id q.event_set_id
  serve_route active q =
      active_route a.codec a.setup.outside a.app a.setup.env a.day q.advertiser_id

  unfoldable pub serve : HttpRequest → Exec (World R) HttpResponse
  unfolding serve_route
  serve q = serve_route q.route q
