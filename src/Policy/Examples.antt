-- ===== src/Policy/Examples.antt =====
-- Requests with a grant, before and after its expiry.
use mathlib.Core.List.Memᴰ.{head}
use asterun.Prelude.{
  inr, String, Option, none, some, [], ◌∷◌, ◌==◌, string_eq, if◌then◌else◌, ◌≡◌, refl, arith,
}
use asterun.Prelude.Int.{pos}
use asterun.Errors.{ok, err, auth_required}
use asterun.Json.{string}
use asterun.Contracts.Examples.{strict}
use asterun.Policy.{Grant, Moment, zoned, enforce_grant, is_expired, from_dict, to_dict}
use asterun.Policy.Admission.{
  enforce_grant_iff, enforce_grant-expired_later, grant_from_dict-to_dict,
}

-- three moments
abbrev moments : String → Option Moment
moments s =
    if s == "early"
    then some (zoned (pos 1))
    else if s == "noon"
    then some (zoned (pos 5))
    else if s == "late"
    then some (zoned (pos 9))
    else none

abbrev until_noon : Grant
until_noon = record { expires_at = string "noon"; resources = some ("home" ∷ []); revision = pos 2 }

enforce_grant_iff_example : enforce_grant moments (some until_noon) "home" "early" ≡ ok tt
enforce_grant_iff_example =
    (enforce_grant_iff moments (some until_noon) "home" "early").1
      ((pos 5, pos 1, refl, refl, omega arith), inr (head refl))

refused_at_noon : enforce_grant moments (some until_noon) "home" "noon" ≡ err auth_required
unfolding enforce_grant is_expired
refused_at_noon = refl

enforce_grant-expired_later_example :
    enforce_grant moments (some until_noon) "lab" "late" ≡ err auth_required
enforce_grant-expired_later_example =
    enforce_grant-expired_later moments (some until_noon) "home" "lab" "noon" "late" (pos 5) (pos 9)
      refl refl (omega arith) refused_at_noon

grant_from_dict-to_dict_example : from_dict strict (to_dict until_noon) ≡ ok until_noon
grant_from_dict-to_dict_example = grant_from_dict-to_dict strict until_noon refl
