-- ===== src/World/Running.antt =====
-- The rules for one statement, one call and one command.
use salesforce_tiktok_crm.Base.{ℕ, suc, ◌+◌, String, ◌≡◌, ◌≢◌, refl, ◌∷◌}
use salesforce_tiktok_crm.Exec.{Result, ok, thrown, hangs, return}
use salesforce_tiktok_crm.Exec.Rules.{Run}
use salesforce_tiktok_crm.Redis.{Redis}
use salesforce_tiktok_crm.World.{
  Tables, Outside, World, Fate, answered, refused, broken, query, run_statement, command, Reply,
  reply, no_reply, ApiCall, call, replied,
}

module _ {R : Redis} where
  -- the world after a statement that left the tables as they are
  abbrev pub asked : World R → World R
  asked w = record w { statements = suc w.statements }

  -- the world after a call
  abbrev pub called : Outside → ApiCall → World R → World R
  called outside request w = record w {
    calls = request ∷ w.calls;
    call_count = suc w.call_count;
    now = w.now + outside.latency w.call_count;
  }

module _ {R : Redis} {A : Type 0} (P : A → World R → Type 0) (Q : String → World R → Type 0)
    (H : World R → Type 0) where
  -- a statement is answered, is refused, or is carried out without an answer
  pub query-Run :
      (outside : Outside) (f : Tables → A × Tables) (w : World R)
      → P (f w.tables).0 (record (asked w) { tables = (f w.tables).1 })
      → ((m : String) → Q m (asked w))
      → ((m : String) → Q m (record (asked w) { tables = (f w.tables).1 }))
      → Run P Q H (query outside f w)
  unfolding query Run
  query-Run outside f w p q q' = by_fate (outside.statement w.statements)
    where
      by_fate : (fate : Fate) → Run P Q H (run_statement fate f w)
      by_fate answered = p
      by_fate (refused m) = q m
      by_fate (broken m) = q' m

  pub return-Run : (a : A) (w : World R) → P a w → Run P Q H (return a w)
  unfolding Run
  return-Run a w p = p

  pub throw-Run : (m : String) (w : World R) → Q m w → Run P Q H (thrown m, w)
  unfolding Run
  throw-Run m w q = q

  replied-Run :
      (r : Reply A) (w : World R)
      → ((a : A) → r ≡ reply a → P a w)
      → ((m : String) → Q m w)
      → Run P Q H (replied r w)
  unfolding Run
  replied-Run (reply a) w p q = p a refl
  replied-Run (no_reply m) w p q = q m

  -- a call is answered by the next answer of the stream, or fails
  pub call-Run :
      (outside : Outside) (request : ApiCall) (answers : ℕ → Reply A) (w : World R)
      → ((a : A) → answers w.call_count ≡ reply a → P a (called outside request w))
      → ((m : String) → Q m (called outside request w))
      → Run P Q H (call outside request answers w)
  unfolding call
  call-Run outside request answers w p q = replied-Run (answers w.call_count) _ p q

  pub result-Run :
      (r : Result A) (w : World R)
      → r ≢ hangs
      → ((a : A) → P a w)
      → ((m : String) → Q m w)
      → Run P Q H (r, w)
  unfolding Run
  result-Run (ok a) w h p q = p a
  result-Run (thrown m) w h p q = q m
  result-Run hangs w h p q = absurd (h refl)

  pub command-Run :
      (f : R.Conn → Result A × R.Conn) (w : World R)
      → (f w.redis).0 ≢ hangs
      → ((a : A) → P a (record w { redis = (f w.redis).1 }))
      → ((m : String) → Q m (record w { redis = (f w.redis).1 }))
      → Run P Q H (command f w)
  unfolding command
  command-Run f w h p q = result-Run (f w.redis).0 _ h p q
