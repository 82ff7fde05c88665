-- ===== src/System/Serving.antt =====
-- Every route keeps what is safe to keep.
use salesforce_tiktok_crm.Exec.{ok}
use salesforce_tiktok_crm.Redis.{Redis}
use salesforce_tiktok_crm.World.{World}
use salesforce_tiktok_crm.World.Keeping.{History, At, Keeps, Keeps-run}
use salesforce_tiktok_crm.Server.Routing.{
  Application, HttpRequest, RouteName, health, ready, queue_metrics, begin, callback, status,
  refresh, revoke, provision, list, create, select, active,
}
use salesforce_tiktok_crm.Server.Serving.{serve_route, serve}
use salesforce_tiktok_crm.System.Stable.{Stable}
use salesforce_tiktok_crm.System.OAuthRoutes.{
  begin-Keeps, answer_callback-Keeps, status-Keeps, refresh_route-Keeps, revoke_route-Keeps,
}
use salesforce_tiktok_crm.System.EventSetRoutes.{
  provision_route-Keeps, list_route-Keeps, create_route-Keeps, select_route-Keeps,
  active_route-Keeps,
}

module _ {R : Redis} (J : History) (stable : Stable J) (a : Application) where
  serve_route-Keeps :
      (name : RouteName) (q : HttpRequest) (w : World R) → At J w → Keeps J (serve_route a name q w)
  unfolding serve_route
  serve_route-Keeps health q w i = Keeps-run J (ok _) w i
  serve_route-Keeps ready q w i = Keeps-run J (ok _) w i
  serve_route-Keeps queue_metrics q w i = Keeps-run J (ok _) w i
  serve_route-Keeps begin q w i =
      begin-Keeps J stable a.codec a.setup.outside a.app a.setup.digest a.encode w i
  serve_route-Keeps callback q w i =
      answer_callback-Keeps J stable a.codec a.setup.outside a.app a.setup.digest a.encode q.query w
        i
  serve_route-Keeps status q w i =
      status-Keeps J stable a.codec a.setup.outside a.app a.setup.digest a.encode w i
  serve_route-Keeps refresh q w i =
      refresh_route-Keeps J stable a.codec a.setup.outside a.app a.setup.digest a.encode
        q.advertiser_id w i
  serve_route-Keeps revoke q w i =
      revoke_route-Keeps J stable a.codec a.setup.outside a.app a.setup.digest a.encode
        q.advertiser_id w i
  serve_route-Keeps provision q w i =
      provision_route-Keeps J stable a.codec a.setup.outside a.app a.setup.env a.day q.advertiser_id
        q.event_set_name w i
  serve_route-Keeps list q w i =
      list_route-Keeps J stable a.codec a.setup.outside a.app a.setup.env a.day q.advertiser_id w i
  serve_route-Keeps create q w i =
      create_route-Keeps J stable a.codec a.setup.outside a.app a.setup.env a.day q.advertiser_id
        q.name w i
  serve_route-Keeps select q w i =
      select_route-Keeps J stable a.codec a.setup.outside a.app a.setup.env a.day q.advertiser_id
        q.event_set_id w i
  serve_route-Keeps active q w i =
      active_route-Keeps J stable a.codec a.setup.outside a.app a.setup.env a.day q.advertiser_id w
        i

  pub serve-Keeps : (q : HttpRequest) (w : World R) → At J w → Keeps J (serve a q w)
  unfolding serve
  serve-Keeps q w i = serve_route-Keeps q.route q w i
