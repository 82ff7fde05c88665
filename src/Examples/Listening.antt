-- ===== src/Examples/Listening.antt =====
-- The listener on sample data.
use salesforce_tiktok_crm.Base.{ℕ, zero, suc, ◌≡◌, refl, none, some, [], arith, true, false, ◌+◌}
use salesforce_tiktok_crm.Exec.{ok, thrown}
use salesforce_tiktok_crm.Redis.Memory.{memory}
use salesforce_tiktok_crm.World.{World}
use salesforce_tiktok_crm.Listener.{
  AuthReply, granted, refused, unreachable, Salesforce, Listener, connect, message, failed,
}
use salesforce_tiktok_crm.Listener.{lead as found}
use salesforce_tiktok_crm.Listener.Connecting.{retried, connect-granted, connect-Refused}
use salesforce_tiktok_crm.Server.{receive}
use salesforce_tiktok_crm.Server.Receiving.{receive_total}
use salesforce_tiktok_crm.Examples.{change, lead}
use salesforce_tiktok_crm.Examples.Storing.{services, world, setup_with, memory-Responsive}

-- Salesforce is out of reach for the first two calls.
abbrev at_third : ℕ → AuthReply
at_third zero = unreachable "ENOTFOUND"
at_third (suc zero) = refused "503"
at_third (suc (suc n)) = granted

abbrev pub salesforce : Salesforce
salesforce = record { authenticate = at_third; retrieve = λ n. found lead }

abbrev down : Salesforce
down = record { authenticate = λ n. refused "503"; retrieve = λ n. failed true }

abbrev pub listener : Listener (World memory)
listener = record {
  last_replay_id = none;
  subscribed = false;
  connects = 0;
  retrieves = 0;
  slept = 0;
  shared = world;
}

connect-granted_example :
    connect salesforce 5 3000 listener
    ≡ (ok tt, record (retried salesforce 2 3000 listener) { subscribed = true; connects = 3 })
connect-granted_example =
    connect-granted salesforce 2 5 3000 listener (omega arith)
      (("ENOTFOUND", refl), (("Salesforce auth failed: 503", refl), tt)) refl

connect-Refused_example : connect down 2 3000 listener ≡ (
  thrown "Salesforce auth failed: 503",
  record (retried down 1 3000 listener) { connects = 1 + 1 },
)
connect-Refused_example =
    connect-Refused down 1 3000 listener "Salesforce auth failed: 503"
      (("Salesforce auth failed: 503", refl), tt) refl

receive_total_example :
    ((receive down (setup_with services) (message (change "CREATE" [])) listener).0 ≡ ok tt)
    × ((receive down (setup_with services) (message (change "CREATE" [])) listener).1.last_replay_id
        ≡ some 7)
receive_total_example =
    receive_total memory-Responsive down (setup_with services) (λ n. tt)
      (message (change "CREATE" [])) listener
      (record { within = omega arith; second = refl }, omega arith, omega arith)
