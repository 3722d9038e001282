-- ===== src/Amounts.antt =====
-- common/amount.ts: what is read as an amount. BigNumber is a parameter.
use trustflow_backend.Prelude.{String, ◌<>◌, Bool}
use trustflow_backend.Prelude.Exec.{plain, pure, throw_if, ◌>>◌}
use trustflow_backend.World.{Env, Action}

module _ ⦃E : Env⦄ where
  -- It throws on a text that is no number.
  abbrev pub parse_amount : String → Action (Unit {0})
  parse_amount amount =
      throw_if (E.is_no_amount amount)
        (plain ("Invalid amount: " <> amount <> " is not a valid number"))

  -- `same` compares two numbers.
  abbrev pub amounts_equal : (String → String → Bool) → String → String → Action Bool
  amounts_equal same a b = do parse_amount a; parse_amount b; pure (same a b)
