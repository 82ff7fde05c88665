-- ===== src/World/Keeping.antt =====
-- Runs that keep what holds of the tables, of what was sent and of what was enqueued, however they
-- end.
use salesforce_tiktok_crm.Base.{ℕ, String, List}
use salesforce_tiktok_crm.Exec.{Result, Exec, ok, thrown, hangs, recover_from, go_on}
use salesforce_tiktok_crm.Exec.Rules.{Run, Run-bind, Run-recover}
use salesforce_tiktok_crm.Redis.{Redis}
use salesforce_tiktok_crm.World.{
  Tables, Request, Job, Outside, World, Fate, answered, refused, broken, query, run_statement,
  command, Reply, reply, no_reply, ApiCall, call, replied,
}

-- What can be said of the tables, the requests and the jobs.
abbrev pub History : Type 1
History = Tables → List Request → List Job → Type 0

module _ {R : Redis} (J : History) where
  abbrev pub At : World R → Type 0
  At w = J w.tables w.requests w.jobs

  abbrev pub Keeps : {A : Type 0} → Result A × World R → Type 0
  Keeps p = Run (λ _. At) (λ _. At) At p

  pub Keeps-run : {A : Type 0} (r : Result A) (w : World R) → At w → Keeps (r, w)
  unfolding Run
  Keeps-run (ok a) w i = i
  Keeps-run (thrown m) w i = i
  Keeps-run hangs w i = i

  pub state-Keeps : {A : Type 0} (r : Result A) (w : World R) → Keeps (r, w) → At w
  unfolding Run
  state-Keeps (ok a) w i = i
  state-Keeps (thrown m) w i = i
  state-Keeps hangs w i = i

  pub Keeps-bind :
      {A B : Type 0} (r : Result A) (rest : A → Exec (World R) B) (w : World R)
      → Keeps (r, w)
      → ((a : A) (w' : World R) → At w' → Keeps (rest a w'))
      → Keeps (go_on r w rest)
  Keeps-bind r rest w = Run-bind _ _ _ _ r rest w

  pub Keeps-recover :
      {A : Type 0} (r : Result A) (handler : String → Exec (World R) A) (w : World R)
      → Keeps (r, w)
      → ((m : String) (w' : World R) → At w' → Keeps (handler m w'))
      → Keeps (recover_from r w handler)
  Keeps-recover r handler w = Run-recover _ _ _ _ r handler w

  pub command-Keeps :
      {A : Type 0} (f : R.Conn → Result A × R.Conn) (w : World R) → At w → Keeps (command f w)
  unfolding command
  command-Keeps f w i = Keeps-run (f w.redis).0 _ i

  -- a statement that writes keeps it if the tables that it leaves do
  pub query-Keeps :
      {A : Type 0} (outside : Outside) (f : Tables → A × Tables) (w : World R)
      → At w
      → J (f w.tables).1 w.requests w.jobs
      → Keeps (query outside f w)
  unfolding query
  query-Keeps outside f w i j = by_fate (outside.statement w.statements)
    where
      by_fate : (fate : Fate) → Keeps (run_statement fate f w)
      by_fate answered = Keeps-run (ok (f w.tables).0) _ j
      by_fate (refused m) = Keeps-run (thrown m) _ i
      by_fate (broken m) = Keeps-run (thrown m) _ j

  pub call-Keeps :
      {A : Type 0} (outside : Outside) (request : ApiCall) (answers : ℕ → Reply A) (w : World R)
      → At w
      → Keeps (call outside request answers w)
  unfolding call
  call-Keeps {A = A} outside request answers w i = by_reply (answers w.call_count) _ i
    where
      by_reply : (r : Reply A) (v : World R) → At v → Keeps (replied r v)
      by_reply (reply a) v j = Keeps-run (ok a) v j
      by_reply (no_reply m) v j = Keeps-run (thrown m) v j
