-- ===== src/Strategy/Summary.antt =====
-- The entry of a strategy in the status of its AuthRealm, found by name, after an update.
use idp_mgmt_operator.Base.{
  String, Option, none, some, List, [], ◌∷◌, ◌==◌, ◌≡◌, refl, arith, if◌then◌else◌, eq_iff,
}
use idp_mgmt_operator.Api.Identity.{StrategySummary}
use idp_mgmt_operator.Helpers.Status.{index_of_name, get_strategy_status_index, modify_at}
use idp_mgmt_operator.Strategy.Report.{
  new_strategy_summary, ensure_at, ensure_strategy, with_strategy,
}

-- The update as one recursion.
upsert : String → (StrategySummary → StrategySummary) → List StrategySummary → List StrategySummary
upsert name f [] = f (new_strategy_summary name) ∷ []
upsert name f (s ∷ ss) = if s.name == name then f s ∷ ss else s ∷ upsert name f ss

with_strategy-eq-upsert :
    (name : String) (f : StrategySummary → StrategySummary) (ss : List StrategySummary)
    → with_strategy name f ss ≡ upsert name f ss
unfolding with_strategy ensure_strategy get_strategy_status_index upsert modify_at ensure_at
    index_of_name
with_strategy-eq-upsert name f [] = refl
with_strategy-eq-upsert name f (s ∷ ss) = ground (arith, with_strategy-eq-upsert name f ss)

-- The first entry of a name.
unfoldable pub find_strategy : String → List StrategySummary → Option StrategySummary
find_strategy name [] = none
find_strategy name (s ∷ ss) = if s.name == name then some s else find_strategy name ss

abbrev pub or_new : String → Option StrategySummary → StrategySummary
or_new name none = new_strategy_summary name
or_new name (some s) = s

find_strategy-upsert :
    (name n : String) (f : StrategySummary → StrategySummary) (ss : List StrategySummary)
    → ((s : StrategySummary) → (f s).name ≡ s.name)
    → find_strategy n (upsert name f ss)
      ≡ (if name == n then some (f (or_new name (find_strategy name ss))) else find_strategy n ss)
unfolding find_strategy upsert
find_strategy-upsert name n f [] keeps = ground (arith, keeps (new_strategy_summary name))
find_strategy-upsert name n f (s ∷ ss) keeps = ground (
  arith,
  keeps s,
  eq_iff s.name name,
  eq_iff s.name n,
  eq_iff name n,
  find_strategy-upsert name n f ss keeps,
)

-- After a status update the first entry of the strategy's name is the one that was there, or a new
-- one, with the change made, and the entries of all other names are as before, if the change keeps
-- the name.
pub find_strategy-with_strategy :
    (name n : String) (f : StrategySummary → StrategySummary) (ss : List StrategySummary)
    → ((s : StrategySummary) → (f s).name ≡ s.name)
    → find_strategy n (with_strategy name f ss)
      ≡ (if name == n then some (f (or_new name (find_strategy name ss))) else find_strategy n ss)
find_strategy-with_strategy name n f ss keeps =
    rw with_strategy-eq-upsert (find_strategy-upsert name n f ss keeps)
