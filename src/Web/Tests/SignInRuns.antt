-- ===== src/Web/Tests/SignInRuns.antt =====
-- The theorem about the login page, for a user with a second factor whose name the server then tells.
use fernbank.Base.{◌≡◌, refl, true, false, [], ◌∷◌, none, some}
use fernbank.Bff.Dashboard.{MeResponse}
use fernbank.Web.Api.{ApiResult, returns}
use fernbank.Web.Auth.{AuthState}
use fernbank.Web.SignIn.{Platform, mounted, gate}
use fernbank.Web.SignIn.Entry.{run, visit, gate_for, run-enters}
use fernbank.Web.Tests.TransferRuns.{units_of}

abbrev browser : Platform
browser = record {
  units = units_of;
  hand_over = λ check values. some values;
  hand_over_code = λ check code. some code;
}

abbrev nobody : AuthState
nobody = record { user = none; is_bootstrapping = false; bootstrapped = true }

abbrev ann : ApiResult MeResponse
ann = returns (
    some (record {
      user_id = none;
      customer_id = none;
      email = some "ann@b.c";
      full_name = some "Ann";
    }))

run-enters_example :
    ((run browser
        (mounted nobody (some "idle"))
        (visit "ann@b.c" "secret" "t1" "123456" ann)).location
      ≡ "/dashboard")
    × ((run browser
          (mounted nobody (some "idle"))
          (visit "ann@b.c" "secret" "t1" "123456" ann)).sent
        ≡ record { email = "ann@b.c"; password = "secret" } ∷ [])
    × (gate
          (run browser
            (mounted nobody (some "idle"))
            (visit "ann@b.c" "secret" "t1" "123456" ann)).auth
        ≡ gate_for ann)
run-enters_example =
    run-enters browser nobody (some "idle") "ann@b.c" "secret" "t1" "123456" ann refl refl refl refl
