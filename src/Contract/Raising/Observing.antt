-- ===== src/Contract/Raising/Observing.antt =====
-- Which exceptions the observations of tools/matrix_contract.py raise.
use teslatlas_home_assistant.Prelude.{Bool, String, Option, none, some}
use teslatlas_home_assistant.Prelude.Int.{ℤ}
use teslatlas_home_assistant.Errors.{Result}
use teslatlas_home_assistant.Json.{
  Json, null, bool, int, float, str, list, dict, Members, close, member,
}
use teslatlas_home_assistant.Contract.{AdmissionContext}
use teslatlas_home_assistant.Contract.Observations.{
  valid_invitation, valid_each, valid_invitations, valid_effect, valid_change, valid_transition,
  is_running, kept_if, running_observation, running_at, check_stopped, stopped_observation,
}
use teslatlas_home_assistant.Contract.Raising.{IsTame, tame_laws}

valid_invitation-IsTame : (v : Json) → IsTame (valid_invitation v)
valid_invitation-IsTame (dict i) = search tame_laws
valid_invitation-IsTame null = search tame_laws
valid_invitation-IsTame (bool b) = search tame_laws
valid_invitation-IsTame (int n) = search tame_laws
valid_invitation-IsTame (float d) = search tame_laws
valid_invitation-IsTame (str s) = search tame_laws
valid_invitation-IsTame (list vs) = search tame_laws

valid_each-IsTame : (d : Members) → IsTame (valid_each d)
unfolding valid_each
valid_each-IsTame close = search tame_laws
valid_each-IsTame (member k v d) =
    search (tame_laws, valid_invitation-IsTame v, valid_each-IsTame d)

valid_effect-IsTame : (operation : String) (t : Members) → IsTame (valid_effect operation t)
unfolding valid_effect
valid_effect-IsTame operation t = search tame_laws

valid_invitations-IsTame : (v : Json) → IsTame (valid_invitations v)
unfolding valid_invitations
valid_invitations-IsTame null = search tame_laws
valid_invitations-IsTame (bool b) = search tame_laws
valid_invitations-IsTame (int n) = search tame_laws
valid_invitations-IsTame (float f) = search tame_laws
valid_invitations-IsTame (str s) = search tame_laws
valid_invitations-IsTame (list vs) = search tame_laws
valid_invitations-IsTame (dict d) = search (tame_laws, valid_each-IsTame d)

valid_change-IsTame :
    (operation : String) (v : Members) (t : Json) → IsTame (valid_change operation v t)
unfolding valid_change
valid_change-IsTame operation v null = search tame_laws
valid_change-IsTame operation v (bool b) = search tame_laws
valid_change-IsTame operation v (int n) = search tame_laws
valid_change-IsTame operation v (float f) = search tame_laws
valid_change-IsTame operation v (str s) = search tame_laws
valid_change-IsTame operation v (list vs) = search tame_laws
valid_change-IsTame operation v (dict d) = search (tame_laws, valid_effect-IsTame operation d)

valid_transition-IsTame : (v : Members) (operation : Json) → IsTame (valid_transition v operation)
unfolding valid_transition
valid_transition-IsTame v null = search tame_laws
valid_transition-IsTame v (bool b) = search tame_laws
valid_transition-IsTame v (int n) = search tame_laws
valid_transition-IsTame v (float f) = search tame_laws
valid_transition-IsTame v (str s) = search (tame_laws, valid_change-IsTame)
valid_transition-IsTame v (list vs) = search tame_laws
valid_transition-IsTame v (dict d) = search tame_laws

is_running-IsTame : (c : AdmissionContext) (n : ℤ) (v : Members) → IsTame (is_running c n v)
unfolding is_running
is_running-IsTame c n v = search (tame_laws, valid_invitations-IsTame, valid_transition-IsTame)

kept_if-IsTame :
    (check : Members → Result Bool) (found : Option Members)
    → ((v : Members) → IsTame (check v))
    → IsTame (kept_if check found)
kept_if-IsTame check none h = search tame_laws
kept_if-IsTame check (some v) h = search (tame_laws, h v)

pub running_observation-IsTame : (c : AdmissionContext) (n : ℤ) → IsTame (running_observation c n)
unfolding running_observation
running_observation-IsTame c n = search (kept_if-IsTame, is_running-IsTame)

pub running_at-IsTame : (c : AdmissionContext) (v : Json) → IsTame (running_at c v)
running_at-IsTame c null = search tame_laws
running_at-IsTame c (bool b) = search tame_laws
running_at-IsTame c (int n) = search (running_observation-IsTame)
running_at-IsTame c (float f) = search tame_laws
running_at-IsTame c (str s) = search tame_laws
running_at-IsTame c (list vs) = search tame_laws
running_at-IsTame c (dict d) = search tame_laws

check_stopped-IsTame :
    (c : AdmissionContext) (n m : ℤ) (v : Members) → IsTame (check_stopped c n m v)
unfolding check_stopped
check_stopped-IsTame c n m v = search (tame_laws, running_observation-IsTame)

pub stopped_observation-IsTame :
    (c : AdmissionContext) (n m : ℤ) → IsTame (stopped_observation c n m)
unfolding stopped_observation
stopped_observation-IsTame c n m = search (kept_if-IsTame, check_stopped-IsTame)
