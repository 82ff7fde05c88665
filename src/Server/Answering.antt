-- ===== src/Server/Answering.antt =====
-- Every request to a route is answered.
use salesforce_tiktok_crm.Base.{ℕ, String, ◌≡◌, refl, Option, none, some, List, [], ◌∷◌, inl, inr}
use salesforce_tiktok_crm.Exec.{Result}
use salesforce_tiktok_crm.Exec.Rules.{Run, Run-mono}
use salesforce_tiktok_crm.Redis.{Redis, RedisLaws}
use salesforce_tiktok_crm.Http.{HttpResponse, status_code}
use salesforce_tiktok_crm.World.{World}
use salesforce_tiktok_crm.World.Running.{return-Run}
use salesforce_tiktok_crm.World.Settled.{AllResponsive}
use salesforce_tiktok_crm.Auth.Routes.Forms.{Escapes, answer_callback-Responds}
use salesforce_tiktok_crm.Auth.Routes.Answering.{
  begin-Responds, status-Responds, refresh_route-Responds, revoke_route-Responds,
}
use salesforce_tiktok_crm.EventSet.Routes.Answering.{OneOf, Responds, routes-Responds}
use salesforce_tiktok_crm.Server.Routing.{
  Application, HttpRequest, QueueCounts, RouteName, health, ready, queue_metrics, begin, callback,
  status, refresh, revoke, provision, list, create, select, active, health_answer, ready_answer,
  metrics_answer,
}
use salesforce_tiktok_crm.Server.Serving.{serve_route, serve}

-- The statuses that a route can answer with.
unfoldable pub statuses : RouteName → List ℕ
statuses health = 200 ∷ []
statuses ready = 200 ∷ []
statuses queue_metrics = 200 ∷ 500 ∷ []
statuses begin = 302 ∷ 500 ∷ []
statuses callback = 200 ∷ 302 ∷ 400 ∷ 403 ∷ 500 ∷ []
statuses status = 200 ∷ 500 ∷ []
statuses refresh = 200 ∷ 400 ∷ []
statuses revoke = 200 ∷ 500 ∷ []
statuses provision = 200 ∷ 201 ∷ 401 ∷ 500 ∷ []
statuses list = 200 ∷ 500 ∷ []
statuses create = 201 ∷ 400 ∷ 500 ∷ []
statuses select = 200 ∷ 400 ∷ 404 ∷ 500 ∷ []
statuses active = 200 ∷ 404 ∷ []

metrics_answer-status :
    (o : Option QueueCounts) → OneOf (200 ∷ 500 ∷ []) (status_code (metrics_answer o))
unfolding metrics_answer
metrics_answer-status none = inr (inl refl)
metrics_answer-status (some counts) = inl refl

module _ {R : Redis} (laws : RedisLaws R) (prompt : AllResponsive R) (a : Application) where
  -- The callback, with an error that it does not catch.
  abbrev pub CallbackFailed : RouteName → HttpRequest → World R → String → Type 0
  CallbackFailed name q w m =
      (name ≡ callback)
      × Escapes laws prompt a.codec a.setup.outside a.app a.setup.digest a.encode q.query w m

  -- An answer with a status of the route, or that error.
  abbrev pub Handled : RouteName → HttpRequest → World R → Result HttpResponse × World R → Type 0
  Handled name q w p =
      Run (λ a _. OneOf (statuses name) (status_code a)) (λ m _. CallbackFailed name q w m) (λ _. ⊥)
        p

  handled :
      (name : RouteName) (q : HttpRequest) (w : World R) (p : Result HttpResponse × World R)
      → Responds (statuses name) p
      → Handled name q w p
  handled name q w p h = Run-mono _ _ _ _ _ _ p.0 p.1 h (λ a v k. k) (λ m v k. absurd k) (λ v k. k)

  serve_route-Handled :
      (name : RouteName) (q : HttpRequest) (w : World R) → Handled name q w (serve_route a name q w)
  unfolding serve_route statuses health_answer ready_answer
  serve_route-Handled health q w = handled health q w _ (return-Run _ _ _ _ w (inl refl))
  serve_route-Handled ready q w = handled ready q w _ (return-Run _ _ _ _ w (inl refl))
  serve_route-Handled queue_metrics q w =
      handled queue_metrics q w _
        (return-Run _ _ _ _ w (metrics_answer-status (a.queue_counts w.now)))
  serve_route-Handled begin q w =
      handled begin q w _
        (begin-Responds laws prompt a.codec a.setup.outside a.app a.setup.digest a.encode w)
  serve_route-Handled callback q w =
      Run-mono _ _ _ _ _ _ _ _
        (answer_callback-Responds laws prompt a.codec a.setup.outside a.app a.setup.digest a.encode
          q.query w)
        (λ answer v k. k) (λ m v k. (refl, k)) (λ v k. k)
  serve_route-Handled status q w =
      handled status q w _
        (status-Responds laws prompt a.codec a.setup.outside a.app a.setup.digest a.encode w)
  serve_route-Handled refresh q w = handled refresh q w _ (
      refresh_route-Responds laws prompt a.codec a.setup.outside a.app a.setup.digest a.encode
        q.advertiser_id w)
  serve_route-Handled revoke q w = handled revoke q w _ (
      revoke_route-Responds laws prompt a.codec a.setup.outside a.app a.setup.digest a.encode
        q.advertiser_id w)
  serve_route-Handled provision q w =
      handled provision q w _
        (routes-Responds laws prompt a.codec a.setup.outside a.app a.setup.env a.day q.advertiser_id
          q.event_set_name q.name q.event_set_id w).0
  serve_route-Handled list q w =
      handled list q w _
        (routes-Responds laws prompt a.codec a.setup.outside a.app a.setup.env a.day q.advertiser_id
          q.event_set_name q.name q.event_set_id w).1
  serve_route-Handled create q w =
      handled create q w _
        (routes-Responds laws prompt a.codec a.setup.outside a.app a.setup.env a.day q.advertiser_id
          q.event_set_name q.name q.event_set_id w).2
  serve_route-Handled select q w =
      handled select q w _
        (routes-Responds laws prompt a.codec a.setup.outside a.app a.setup.env a.day q.advertiser_id
          q.event_set_name q.name q.event_set_id w).3
  serve_route-Handled active q w =
      handled active q w _
        (routes-Responds laws prompt a.codec a.setup.outside a.app a.setup.env a.day q.advertiser_id
          q.event_set_name q.name q.event_set_id w).4

  -- Where no command of Redis hangs, every request that reaches a route is answered with one of the
  -- route's statuses, whatever the request holds and whatever Postgres, TikTok and BullMQ answer. The
  -- exceptions, which no handler catches, are in the callback: an error of Redis while it asks for
  -- the state, and a state that is no text and cannot be made one.
  pub serve-Handled : (q : HttpRequest) (w : World R) → Handled q.route q w (serve a q w)
  unfolding serve
  serve-Handled q w = serve_route-Handled q.route q w
