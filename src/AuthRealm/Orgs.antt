-- ===== src/AuthRealm/Orgs.antt =====
-- The loop of `createDexConnectors` (controllers/authrealm/dex.go) that gathers the teams of a
-- GitHub provider by organization.
use idp_mgmt_operator.Base.{
  ℕ, zero, suc, ◌+◌, String, Bool, true, false, Option, none, some, List, [], ◌∷◌, ◌++◌, length,
  replicate, split_at,
}
use idp_mgmt_operator.Api.Dex.{Org}
use idp_mgmt_operator.Helpers.Status.{index_of_name, modify_at}

abbrev pub blank_org : Org
blank_org = record { name = ""; teams = [] }

abbrev pub first_names : ℕ → List Org → List String
first_names zero orgs = []
first_names (suc n) [] = []
first_names (suc n) (o ∷ orgs) = o.name ∷ first_names n orgs

-- `orgs[k].Teams = append(orgs[k].Teams, team)`
abbrev pub add_team : String → Org → Org
add_team team o = record o { teams = o.teams ++ team ∷ [] }

-- The variables of the loop: `c.GitHub.Orgs`, `j` and `flag`.
pub record Gather : Type 0 where
  pub orgs : List Org
  pub j : ℕ
  pub flag : Bool

-- The part behind the inner loop: `if !flag`.
unfoldable pub add_org : String → String → Bool → Gather → Gather
add_org org team true g = g
add_org org team false g = record {
  orgs = modify_at g.j (λ o. add_team team (record o { name = org })) g.orgs;
  j = g.j + 1;
  flag = false;
}

-- What the inner loop finds among the first `i` entries; the flag is not reset in a later round.
unfoldable pub add_to : String → String → Option ℕ → Gather → Gather
add_to org team (some k) g = record g { orgs = modify_at k (add_team team) g.orgs; flag = true }
add_to org team none g = add_org org team g.flag g

unfoldable pub gather_parts : ℕ → List String → Gather → Gather
gather_parts i (org ∷ team ∷ []) g = add_to org team (index_of_name org (first_names i g.orgs)) g
gather_parts i parts g = g

unfoldable pub gather : ℕ → List String → Gather → Gather
gather i [] g = g
gather i (team ∷ teams) g = gather (i + 1) teams (gather_parts i (split_at b'/' team) g)

-- `make([]Org, len(teams))`, filled by the loop
unfoldable pub orgs_of_teams : List String → List Org
orgs_of_teams teams =
    (gather 0 teams
      (record { orgs = replicate (length teams) blank_org; j = 0; flag = false })).orgs
