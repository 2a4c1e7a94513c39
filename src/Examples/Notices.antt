-- ===== src/Examples/Notices.antt =====
-- The notifications on concrete inputs: one template, one intent and its notification.
use zsj_crm.Prelude.{◌≡◌, refl, Bool, true, none, some, List, [], ◌∷◌, String, lookup, insert}
use zsj_crm.Notifications.Store.{
  fails, conflict, Definition, Release, IntentResult, Intent, deliver, Notification, Store, Call,
  publish_template, activate_template, accept_intent, mark_read, archive, empty, get_template,
  activate_version, get_active_template, find_intent, call, run,
}
use zsj_crm.Notifications.Store.Releases.{run-get_active_template}
use zsj_crm.Notifications.Store.Privacy.{Later, run-Later, run-others}
use zsj_crm.Notifications.Store.Intents.{accept_intent-again}

abbrev json : Definition Bool → String
json d = d.template_key

abbrev welcome : Release Bool
welcome = record { template_key = "welcome"; version = 1; content_digest = "d1"; details = true }

abbrev revised : Release Bool
revised = record { template_key = "welcome"; version = 2; content_digest = "d2"; details = true }

abbrev answer : IntentResult
answer = record { intent_id = "i1"; notification_ids = "n1" ∷ [] }

abbrev order : Intent
order = record {
  intent_id = "i1";
  producer = "crm";
  idempotency_key = "k1";
  fingerprint = "f1";
  result = answer;
  created_at = "t1";
}

-- The same producer and key with another request.
abbrev rival : Intent
rival = record order { fingerprint = "f2" }

abbrev notice : Notification Bool
notice = record {
  notification_id = "n1";
  principal_id = "alice";
  preference_decision = deliver;
  created_at = "t1";
  state_version = 1;
  read_at = none;
  archived_at = none;
  details = true;
}

abbrev published : List (Call Bool)
published = publish_template welcome ∷ activate_template "a1" "welcome" 1 ∷ []

abbrev further : List (Call Bool)
further = publish_template revised ∷ activate_template "a2" "welcome" 2 ∷ []

run-get_active_template_example :
    (r : Release Bool) × (get_active_template "welcome" (run json published empty) ≡ some r)
    × (r.version ≡ 1)
    × (r.template_key ≡ "welcome")
    × (get_template "welcome" 1 (run json further (run json published empty)).templates ≡ some r)
unfolding call activate_version lookup get_template insert
run-get_active_template_example = run-get_active_template json published further "welcome" 1 refl

abbrev kept_intent : Store Bool
kept_intent = run json (accept_intent order (notice ∷ []) ∷ []) empty

-- What Bob asks for does nothing to Alice's notification; what she asks for is done once.
abbrev intruding : List (Call Bool)
intruding = mark_read "bob" "n1" "t2" ∷ archive "bob" "n1" "t3" ∷ []

abbrev own_calls : List (Call Bool)
own_calls =
    mark_read "alice" "n1" "t2" ∷ mark_read "alice" "n1" "t4" ∷ archive "alice" "n1" "t5" ∷ []

run-Later_example :
    (m : Notification Bool) × (lookup "n1" (run json own_calls kept_intent).notifications ≡ some m)
    × Later notice m
unfolding call find_intent lookup insert
run-Later_example = run-Later json own_calls kept_intent "n1" notice refl

run-others_example : lookup "n1" (run json intruding kept_intent).notifications ≡ some notice
unfolding call find_intent lookup insert
run-others_example = run-others json intruding kept_intent "n1" notice refl refl

accept_intent-again_example :
    call json (accept_intent rival []) (run json own_calls kept_intent) ≡ fails conflict
unfolding call find_intent lookup insert
accept_intent-again_example =
    accept_intent-again json order rival (notice ∷ []) [] own_calls empty kept_intent true answer
      refl refl refl
