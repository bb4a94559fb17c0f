-- ===== src/AuthRealm/Teams.antt =====
-- Which organizations the connector of a GitHub provider gets from the teams.
use idp_mgmt_operator.Base.{
  ℕ, zero, suc, ◌+◌, String, true, false, Option, none, some, List, [], ◌∷◌, ◌++◌, ◌≡◌, ◌≢◌, refl,
  sym, ap, ◌∙◌, arith, length, length-append, replicate, map, split_at, All, eq_iff, Any, inl, inr,
  ◌==◌, Bool-cases,
}
use text.Mathlib.TextPositions.{eq_refl}
use mathlib.Core.List.{append-nil}
use idp_mgmt_operator.Api.Dex.{Org}
use idp_mgmt_operator.Helpers.Status.{index_of_name, modify_at}
use idp_mgmt_operator.AuthRealm.Orgs.{
  blank_org, first_names, add_team, Gather, add_org, add_to, gather_parts, gather, orgs_of_teams,
}

abbrev pub org_names : List Org → List String
org_names orgs = map (λ o. o.name) orgs

names-modify_at :
    (k : ℕ) (f : Org → Org) (orgs : List Org)
    → ((o : Org) → (f o).name ≡ o.name)
    → org_names (modify_at k f orgs) ≡ org_names orgs
unfolding modify_at
names-modify_at k f [] keeps = refl
names-modify_at zero f (o ∷ orgs) keeps = ap (λ n. n ∷ org_names orgs) (keeps o)
names-modify_at (suc k) f (o ∷ orgs) keeps = ap (λ l. o.name ∷ l) (names-modify_at k f orgs keeps)

add_to-flag :
    (org team : String) (k : Option ℕ) (g : Gather)
    → g.flag ≡ true
    → ((add_to org team k g).flag ≡ true)
      × (org_names (add_to org team k g).orgs ≡ org_names g.orgs)
unfolding add_to add_org
add_to-flag org team none g on = rw on (refl, refl)
add_to-flag org team (some k) g on = (refl, names-modify_at k (add_team team) g.orgs (λ o. refl))

gather_parts-flag :
    (i : ℕ) (parts : List String) (g : Gather)
    → g.flag ≡ true
    → ((gather_parts i parts g).flag ≡ true)
      × (org_names (gather_parts i parts g).orgs ≡ org_names g.orgs)
unfolding gather_parts
gather_parts-flag i (org ∷ team ∷ []) g on = add_to-flag org team _ g on
gather_parts-flag i [] g on = (on, refl)
gather_parts-flag i (p ∷ []) g on = (on, refl)
gather_parts-flag i (p ∷ q ∷ r ∷ parts) g on = (on, refl)

gather-flag :
    (i : ℕ) (teams : List String) (g : Gather)
    → g.flag ≡ true
    → org_names (gather i teams g).orgs ≡ org_names g.orgs
unfolding gather
gather-flag i [] g on = refl
gather-flag i (team ∷ teams) g on =
    let (on', same) = gather_parts-flag i (split_at b'/' team) g on in
    gather-flag (i + 1) teams _ on' ∙ same

-- The organization of a team in two parts, with that team.
abbrev pub org_of_parts : List String → Org
org_of_parts (org ∷ team ∷ []) = record { name = org; teams = team ∷ [] }
org_of_parts parts = blank_org

abbrev pub org_of_team : String → Org
org_of_team team = org_of_parts (split_at b'/' team)

-- Each team has two parts, and an organization that is not yet seen.
abbrev pub OrgsAreFresh : List String → List String → Type 0
OrgsAreFresh seen [] = Unit
OrgsAreFresh seen (team ∷ teams) =
    (length (split_at b'/' team) ≡ 2)
    × All (λ n. n ≢ (org_of_team team).name) seen
    × OrgsAreFresh (seen ++ (org_of_team team).name ∷ []) teams

index_of_name-fresh :
    (org : String) (names : List String) → All (λ n. n ≢ org) names → index_of_name org names ≡ none
unfolding index_of_name
index_of_name-fresh org [] h = refl
index_of_name-fresh org (n ∷ names) (h, hs) =
    ground (arith, eq_iff n org, index_of_name-fresh org names hs)

first_names-append :
    (before rest : List Org) → first_names (length before) (before ++ rest) ≡ org_names before
first_names-append [] rest = refl
first_names-append (o ∷ before) rest = ap (λ l. o.name ∷ l) (first_names-append before rest)

modify_at-append :
    (f : Org → Org) (before rest : List Org) (o : Org)
    → modify_at (length before) f (before ++ o ∷ rest) ≡ (before ++ f o ∷ []) ++ rest
unfolding modify_at
modify_at-append f [] rest o = refl
modify_at-append f (b ∷ before) rest o = ap (λ l. b ∷ l) (modify_at-append f before rest o)

-- The variables of the loop when each team so far had an organization of its own.
abbrev so_far : List Org → ℕ → Gather
so_far before n = record { orgs = before ++ replicate n blank_org; j = length before; flag = false }

gather_parts-fresh :
    (before : List Org) (parts : List String) (n : ℕ)
    → length parts ≡ 2
    → All (λ m. m ≢ (org_of_parts parts).name) (org_names before)
    → gather_parts (length before) parts (so_far before (suc n))
      ≡ so_far (before ++ org_of_parts parts ∷ []) n
unfolding gather_parts add_to add_org
gather_parts-fresh before (org ∷ team ∷ []) n two fresh =
    let new : Org = record { name = org; teams = team ∷ [] } in
    let grown : length (before ++ new ∷ []) ≡ length before + 1 = length-append before (new ∷ []) in
    rw
      (
        first_names-append before (blank_org ∷ replicate n blank_org),
        index_of_name-fresh org (org_names before) fresh,
        modify_at-append (λ o. add_team team (record o { name = org })) before
            (replicate n blank_org) blank_org,
        grown,
      )
      refl
gather_parts-fresh before [] n two fresh = absurd (omega arith)
gather_parts-fresh before (p ∷ []) n two fresh = absurd (omega arith)
gather_parts-fresh before (p ∷ q ∷ r ∷ parts) n two fresh = absurd (omega arith)

org_names-append :
    (before : List Org) (o : Org) → org_names (before ++ o ∷ []) ≡ org_names before ++ o.name ∷ []
org_names-append [] o = refl
org_names-append (b ∷ before) o = ap (λ l. b.name ∷ l) (org_names-append before o)

append-append : (xs ys zs : List Org) → (xs ++ ys) ++ zs ≡ xs ++ (ys ++ zs)
append-append [] ys zs = refl
append-append (x ∷ xs) ys zs = ap (λ l. x ∷ l) (append-append xs ys zs)

gather-fresh :
    (i : ℕ) (before : List Org) (teams : List String) (n : ℕ) (later : List String)
    → i ≡ length before
    → OrgsAreFresh (org_names before) teams
    → gather i (teams ++ later) (so_far before (length teams + n))
      ≡ gather (i + length teams) later (so_far (before ++ map org_of_team teams) n)
unfolding gather
gather-fresh i before [] n later e fresh =
    let same : i + 0 ≡ i = omega arith in
    let all : 0 + n ≡ n = omega arith in rw (same, all, append-nil before) refl
gather-fresh i before (team ∷ teams) n later e (two, new, fresh) =
    let parts = split_at b'/' team in
    let after = before ++ org_of_parts parts ∷ [] in
    let count : suc (length teams) + n ≡ suc (length teams + n) = omega arith in
    let index : length before + suc (length teams) ≡ (length before + 1) + length teams =
      omega arith in
    rw (e, count, index, gather, gather_parts-fresh before parts (length teams + n) two new)
      (gather-fresh (length before + 1) after teams n later
          (sym (length-append before (org_of_parts parts ∷ [])))
          (rw (org_names-append before (org_of_parts parts)) fresh)
        ∙ ap (λ os. gather ((length before + 1) + length teams) later (so_far os n))
            (append-append before (org_of_parts parts ∷ []) (map org_of_team teams)))

-- If each team has the form of an organization and a name, and no two teams share an organization,
-- then the connector gets the organizations of the teams in their order, each with its one team.
pub orgs_of_distinct_teams :
    (teams : List String) → OrgsAreFresh [] teams → orgs_of_teams teams ≡ map org_of_team teams
unfolding orgs_of_teams gather
orgs_of_distinct_teams teams fresh =
    let count : length teams + 0 ≡ length teams = omega arith in
    let whole : gather 0 (teams ++ []) (so_far [] (length teams + 0))
        ≡ so_far (map org_of_team teams) 0 =
      gather-fresh 0 [] teams 0 [] refl fresh in
    let loop : gather 0 teams (so_far [] (length teams)) ≡ so_far (map org_of_team teams) 0 =
      rw (append-nil teams, count) at whole in
    ap (λ (g : Gather). g.orgs) loop ∙ append-nil (map org_of_team teams)

index_of_name-there :
    (org : String) (names : List String)
    → Any (λ n. n ≡ org) names
    → (k : ℕ) × (index_of_name org names ≡ some k)
unfolding index_of_name
index_of_name-there org [] h = absurd h
index_of_name-there org (n ∷ names) (inl e) = (0, rw (e, eq_refl org) refl)
index_of_name-there org (n ∷ names) (inr h) =
    let (k, e) = index_of_name-there org names h in
    elim (Bool-cases (n == org)) [ inl q ↦ (0, rw q refl) | inr q ↦ (suc k, rw (q, e) refl) ]

gather_parts-repeat :
    (i : ℕ) (parts : List String) (g : Gather)
    → length parts ≡ 2
    → Any (λ n. n ≡ (org_of_parts parts).name) (first_names i g.orgs)
    → ((gather_parts i parts g).flag ≡ true)
      × (org_names (gather_parts i parts g).orgs ≡ org_names g.orgs)
unfolding gather_parts add_to
gather_parts-repeat i (org ∷ team ∷ []) g two there =
    let (k, e) = index_of_name-there org (first_names i g.orgs) there in
    rw e (refl, names-modify_at k (add_team team) g.orgs (λ o. refl))
gather_parts-repeat i [] g two there = absurd (omega arith)
gather_parts-repeat i (p ∷ []) g two there = absurd (omega arith)
gather_parts-repeat i (p ∷ q ∷ r ∷ parts) g two there = absurd (omega arith)

length-orgs : (teams : List String) → length (map org_of_team teams) ≡ length teams
length-orgs [] = refl
length-orgs (team ∷ teams) = ap suc (length-orgs teams)

names-so_far :
    (before : List Org) (n : ℕ)
    → org_names (before ++ replicate n blank_org) ≡ org_names before ++ replicate n ""
names-so_far [] zero = refl
names-so_far [] (suc n) = ap (λ l. "" ∷ l) (names-so_far [] n)
names-so_far (o ∷ before) n = ap (λ l. o.name ∷ l) (names-so_far before n)

-- If teams of distinct organizations are followed by a team of one of these organizations, then no
-- organization of any later team is there: the connector gets the organizations of the teams before
-- the repetition, and one without a name for each team from the repetition on.
pub no_org_after_repeat :
    (teams : List String) (team : String) (later : List String)
    → OrgsAreFresh [] teams
    → length (split_at b'/' team) ≡ 2
    → Any (λ n. n ≡ (org_of_team team).name) (org_names (map org_of_team teams))
    → org_names (orgs_of_teams (teams ++ team ∷ later))
      ≡ org_names (map org_of_team teams) ++ replicate (suc (length later)) ""
unfolding orgs_of_teams gather
no_org_after_repeat teams team later fresh two there =
    let before = map org_of_team teams in
    let n = suc (length later) in
    let i = length teams in
    let same_length : 0 + i ≡ length before = omega (arith, length-orgs teams) in
    let seen : first_names (0 + i) (before ++ replicate n blank_org) ≡ org_names before =
      rw same_length (first_names-append before (replicate n blank_org)) in
    let (on, same) =
      gather_parts-repeat (0 + i) (split_at b'/' team) (so_far before n) two (rw seen there) in
    ap (λ m. org_names (gather 0 (teams ++ team ∷ later) (so_far [] m)).orgs)
      (length-append teams (team ∷ later))
    ∙ (ap (λ (g : Gather). org_names g.orgs) (gather-fresh 0 [] teams n (team ∷ later) refl fresh)
        ∙ (gather-flag (0 + i + 1) later _ on ∙ (same ∙ names-so_far before n)))
