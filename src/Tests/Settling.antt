-- ===== src/Tests/Settling.antt =====
-- An AuthRealm with a dex server and both strategies goes.
use idp_mgmt_operator.Base.{String, ℕ, ◌+◌, ◌≤◌, ◌<◌, [], ◌∷◌, ◌≡◌, refl, ◌⊎◌, inl, inr, arith}
use idp_mgmt_operator.Api.Meta.{new_meta}
use idp_mgmt_operator.Api.Identity.{Strategy, StrategyType}
use idp_mgmt_operator.Helpers.Names.{dex_server_namespace}
use idp_mgmt_operator.AuthRealm.DexServer.{
  new_dex_server, process_dex_server_deletion, after_dex_clients, delete_servers_and_namespace,
  delete_dex_servers, delete_if_found, delete_found,
}
use idp_mgmt_operator.AuthRealm.Deletion.{drop_finalizer, process_authrealm_deletion}
use idp_mgmt_operator.AuthRealm.Reconcile.{reconcile, reconcile_instance}
use idp_mgmt_operator.AuthRealm.Rounds.{NoClients}
use idp_mgmt_operator.AuthRealm.Settling.{Course, Next, deletion_terminates, rounds_are_bounded}
use idp_mgmt_operator.Tests.Memory.{World, empty_world}
use idp_mgmt_operator.Tests.Laws.{IsCalm, IsAsked, size, req, laws, slow, finish}
use idp_mgmt_operator.Tests.AuthRealm.{leaving, installer}

clients_gone : (w : World) → IsCalm w → NoClients slow leaving w
clients_gone w calm = rw (calm.clients) refl

abbrev strategy : StrategyType → String → Strategy
strategy t name = record {
  meta = new_meta name "ns";
  type = t;
  placement_ref = "";
  conditions = [];
}

abbrev served : World
served = record empty_world {
  auth_realms = leaving ∷ [];
  dex_servers = new_dex_server "idp-mgmt-my-domain" ∷ [];
  namespaces = record { meta = new_meta "idp-mgmt-my-domain" "" } ∷ [];
  strategies =
      strategy StrategyType.backplane "realm-backplane"
      ∷ strategy StrategyType.hypershift "realm-hypershift"
      ∷ [];
}

served-IsCalm : IsCalm served
served-IsCalm = record {
  realm = refl;
  clients = refl;
  one_server = inr (new_dex_server "idp-mgmt-my-domain", refl);
}

deletion_terminates_example :
    (n : ℕ) × (w' : World) × (n + size w' ≤ 4)
    × Course slow installer req (λ v u. u ≡ finish v) n served w'
    × (reconcile slow installer req w' ≡ drop_finalizer slow leaving w')
deletion_terminates_example =
    deletion_terminates slow installer req leaving IsCalm IsAsked laws refl clients_gone size finish
      (λ w v calm asked. asked) served served-IsCalm

-- The strategies that are marked go, or someone else removes all strategies.
abbrev Withdrawal : World → World → Type 0
Withdrawal v u = (u ≡ finish v) ⊎ (u ≡ record v { strategies = [] })

removal_is_harmless :
    (w v u : World) → IsCalm w → IsAsked w v → Withdrawal v u → (size u < size w) × IsCalm u
removal_is_harmless w v u calm (less, calm') (inl e) = rw e (less, calm')
removal_is_harmless w v u calm (less, calm') (inr e) = rw e (
  omega arith,
  record { realm = calm'.realm; clients = calm'.clients; one_server = calm'.one_server },
)

abbrev unserved : World
unserved = record served { dex_servers = [] }

abbrev left : World
left = record empty_world { auth_realms = leaving ∷ [] }

two_rounds : Course slow installer req Withdrawal 2 served left
unfolding reconcile reconcile_instance process_authrealm_deletion process_dex_server_deletion
    after_dex_clients delete_servers_and_namespace delete_dex_servers delete_if_found delete_found
    dex_server_namespace
two_rounds =
    Course.again {v = unserved} {u = record unserved { strategies = [] }} refl (inr refl)
      (Course.again {v = left} {u = left} refl (inl refl) Course.rest)

rounds_are_bounded_example : (2 ≤ 4) × Next slow installer req leaving IsAsked left
rounds_are_bounded_example =
    rounds_are_bounded slow installer req leaving IsCalm IsAsked laws refl clients_gone size
      Withdrawal removal_is_harmless served served-IsCalm two_rounds
