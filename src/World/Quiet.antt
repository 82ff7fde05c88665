-- ===== src/World/Quiet.antt =====
-- Runs that leave alone what the pipeline is answerable for.
use salesforce_tiktok_crm.Base.{String, ◌≡◌, refl, ◌∙◌}
use salesforce_tiktok_crm.Exec.{Result, ok, thrown, hangs, Exec, return, recover_from, go_on}
use salesforce_tiktok_crm.Exec.Rules.{Run, Run-bind, Run-recover}
use salesforce_tiktok_crm.Redis.{Redis}
use salesforce_tiktok_crm.World.{
  Tables, Outside, World, Fate, answered, refused, broken, query, run_statement, command,
}

module _ {R : Redis} where
  -- Nothing was sent, enqueued or logged, and no time has passed.
  pub record Quiet (w w' : World R) : Type 0 where
    pub requests : w'.requests ≡ w.requests
    pub jobs : w'.jobs ≡ w.jobs
    pub event_log : w'.tables.event_log ≡ w.tables.event_log
    pub now : w'.now ≡ w.now

  pub Quiet-refl : (w : World R) → Quiet w w
  Quiet-refl w = record { requests = refl; jobs = refl; event_log = refl; now = refl }

  pub Quiet-trans : (w w' w'' : World R) → Quiet w w' → Quiet w' w'' → Quiet w w''
  Quiet-trans w w' w'' p q = record {
    requests = q.requests ∙ p.requests;
    jobs = q.jobs ∙ p.jobs;
    event_log = q.event_log ∙ p.event_log;
    now = q.now ∙ p.now;
  }

  abbrev pub RunsQuiet : {A : Type 0} → World R → Result A × World R → Type 0
  RunsQuiet w p = Run (λ _. Quiet w) (λ _. Quiet w) (Quiet w) p

  pub Quiet-run : {A : Type 0} (w w' : World R) (r : Result A) → Quiet w w' → RunsQuiet w (r, w')
  unfolding Run
  Quiet-run w w' (ok a) q = q
  Quiet-run w w' (thrown message) q = q
  Quiet-run w w' hangs q = q

  pub Quiet-return : {A : Type 0} (a : A) (w₀ w : World R) → Quiet w₀ w → RunsQuiet w₀ (return a w)
  unfolding Run
  Quiet-return a w₀ w q = q

  pub Quiet-bind :
      {A B : Type 0} (r : Result A) (rest : A → Exec (World R) B) (w₀ w : World R)
      → RunsQuiet w₀ (r, w)
      → ((a : A) (w' : World R) → Quiet w₀ w' → RunsQuiet w₀ (rest a w'))
      → RunsQuiet w₀ (go_on r w rest)
  Quiet-bind r rest w₀ w = Run-bind _ _ _ _ r rest w

  pub Quiet-recover :
      {A : Type 0} (r : Result A) (handler : String → Exec (World R) A) (w₀ w : World R)
      → RunsQuiet w₀ (r, w)
      → ((m : String) (w' : World R) → Quiet w₀ w' → RunsQuiet w₀ (handler m w'))
      → RunsQuiet w₀ (recover_from r w handler)
  Quiet-recover r handler w₀ w = Run-recover _ _ _ _ r handler w

  -- A Redis command changes the connection only.
  pub command-Quiet :
      {A : Type 0} (f : R.Conn → Result A × R.Conn) (w₀ w : World R)
      → Quiet w₀ w
      → RunsQuiet w₀ (command f w)
  unfolding command
  command-Quiet f w₀ w q =
      Quiet-run w₀ _ (f w.redis).0
        record { requests = q.requests; jobs = q.jobs; event_log = q.event_log; now = q.now }

  -- A statement that does not write to the event log.
  pub query-Quiet :
      {A : Type 0} (outside : Outside) (f : Tables → A × Tables) (w₀ w : World R)
      → ((t : Tables) → (f t).1.event_log ≡ t.event_log)
      → Quiet w₀ w
      → RunsQuiet w₀ (query outside f w)
  unfolding query Run
  query-Quiet outside f w₀ w reads q = by_fate (outside.statement w.statements)
    where
      by_fate : (fate : Fate) → RunsQuiet w₀ (run_statement fate f w)
      by_fate answered = record {
        requests = q.requests;
        jobs = q.jobs;
        event_log = reads w.tables ∙ q.event_log;
        now = q.now;
      }
      by_fate (refused m) = record {
        requests = q.requests;
        jobs = q.jobs;
        event_log = q.event_log;
        now = q.now;
      }
      by_fate (broken m) = record {
        requests = q.requests;
        jobs = q.jobs;
        event_log = reads w.tables ∙ q.event_log;
        now = q.now;
      }
