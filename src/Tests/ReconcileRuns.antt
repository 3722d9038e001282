-- ===== src/Tests/ReconcileRuns.antt =====
-- The theorems on the reconciliation at concrete states.
use trustflow_backend.Prelude.{refl}
use trustflow_backend.Prelude.{str_eq}
use trustflow_backend.Prelude.JsMap
use trustflow_backend.Data.Escrow.{released}
use trustflow_backend.Data.Reconciliation.{ChainEscrowRecord}
use trustflow_backend.Escrow.Store.{stored}
use trustflow_backend.Escrow.Machine.{Holds}
use trustflow_backend.Reconcile.Service.{Chain, found, compare_fields}
use trustflow_backend.Reconcile.Agreement.{Agrees, compare_fields-Agrees}
use trustflow_backend.Tests.{down, off, deal}

abbrev on_chain : ChainEscrowRecord
on_chain = record {
  contract_escrow_id = "c_1";
  depositor = "GDEP";
  beneficiary = "GBEN";
  amount_xlm = "200";
  status = released;
}

abbrev network : Chain (Unit {0})
network = record { read = λ id r. (found on_chain, r); amounts_equal = str_eq }

deal-Holds : Holds ⦃E = down⦄ off deal
unfolding JsMap.get
deal-Holds = record { off = refl; at = refl }

compare_fields-Agrees_example :
    Agrees ⦃E = down⦄ network on_chain deal
      (compare_fields ⦃E = down⦄ network "c_1" (stored deal) on_chain off)
compare_fields-Agrees_example =
    compare_fields-Agrees ⦃E = down⦄ network "c_1" on_chain deal refl refl off refl deal-Holds
