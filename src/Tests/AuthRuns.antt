-- ===== src/Tests/AuthRuns.antt =====
-- The theorems on the stores of auth/ at concrete states.
use trustflow_backend.Prelude.{List, [], ◌∷◌}
use trustflow_backend.Prelude.JsMap
use trustflow_backend.World.{World}
use trustflow_backend.Auth.Spent.{Call, to_issue, to_rotate, to_revoke}
use trustflow_backend.Tests.{off}

abbrev signed_in : World (Unit {0})
signed_in = record off {
  tokens = ("t_1", record { issued_at = 0; family_id = "f_1" }) ∷ [];
  families = ("refresh-family:GDEP:f_1", "t_1" ∷ []) ∷ [];
}

abbrev meanwhile : List Call
meanwhile = to_issue "GBEN" ∷ to_rotate "7f3a" "GDEP" ∷ to_revoke "t_2" ∷ []
