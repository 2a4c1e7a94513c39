-- ===== src/Examples/Units.antt =====
-- The organization module on concrete inputs; the dates are single letters.
use zsj_crm.Prelude.{
  ℕ, ◌≡◌, ◌↔◌, refl, true, false, Option, none, some, [], ◌∷◌, String, str_eq, insert, lookup, ◌==◌,
  if◌then◌else◌,
}
use zsj_crm.Organization.Facts.{
  ok, err, idempotency_conflict, Interval, Employment, Calendar, require_interval,
  interval_contains,
}
use zsj_crm.Organization.Intervals.{Covers, interval_contains_iff}
use zsj_crm.Organization.Store.{
  Store, Commit, create_employment, close, close_employment, empty, apply, commit, insert_new,
  close_record,
}
use zsj_crm.Organization.Store.Replay.{commit-commit}
use zsj_crm.Organization.Store.Commits.{Later, commit-Later}

abbrev letter_date : String → Option ℕ
letter_date s =
    if str_eq s "a"
    then some 1
    else if str_eq s "b"
    then some 2
    else if str_eq s "c"
    then some 3
    else none

abbrev date_letter : ℕ → String
date_letter n = if n == 1 then "a" else if n == 2 then "b" else "c"

abbrev letters : Calendar
letters = record { parse = letter_date; print = date_letter; size = λ s. 1; trimmed_size = λ s. 1 }

abbrev from_a : Interval
from_a = record { from = "a"; to = none }

abbrev b_to_c : Interval
b_to_c = record { from = "b"; to = some "c" }

valid_from_a : require_interval letters from_a ≡ ok tt
unfolding require_interval
valid_from_a = refl

valid_b_to_c : require_interval letters b_to_c ≡ ok tt
unfolding require_interval
valid_b_to_c = refl

interval_contains_iff_example :
    (interval_contains letters from_a b_to_c ≡ true) ↔ Covers letters from_a b_to_c
interval_contains_iff_example =
    interval_contains_iff letters from_a b_to_c valid_from_a valid_b_to_c

abbrev hired : Employment
hired = record { employment_id = "e"; person_id = "p"; interval = from_a }

abbrev hiring : Commit
hiring = record {
  operation_id = "o1";
  fingerprint = "f1";
  audit_action = "employment_created";
  event_type = "organization.employment.created.v1";
  write = create_employment hired;
}

abbrev other : Commit
other = record {
  operation_id = "o1";
  fingerprint = "f2";
  audit_action = "employment_created";
  event_type = "organization.employment.created.v1";
  write = create_employment hired;
}

abbrev staffed : Store
staffed = record empty { employments = ("e", hired) ∷ []; operations = ("o1", "f1") ∷ [] }

hiring_done : commit letters hiring empty ≡ ok (staffed, false)
unfolding commit apply insert_new insert lookup
hiring_done = refl

commit-commit_example : commit letters other staffed ≡ (
    if str_eq hiring.fingerprint other.fingerprint
    then ok (staffed, true)
    else err idempotency_conflict)
commit-commit_example = commit-commit letters hiring other empty staffed hiring_done refl

abbrev leaving : Commit
leaving = record {
  operation_id = "o2";
  fingerprint = "f3";
  audit_action = "employment_closed";
  event_type = "organization.employment.closed.v1";
  write = close close_employment "e" "b" (some "p");
}

abbrev left : Store
left = record empty {
  employments = ("e", record hired { interval = record { from = "a"; to = some "b" } }) ∷ [];
  operations = ("o1", "f1") ∷ ("o2", "f3") ∷ [];
}

leaving_done : commit letters leaving staffed ≡ ok (left, false)
unfolding commit apply close_record insert lookup
leaving_done = refl

commit-Later_example : Later staffed left
commit-Later_example = commit-Later letters leaving staffed left false leaving_done
