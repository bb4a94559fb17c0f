-- ===== src/Webhook/Domain.antt =====
-- The regular expression of `ValidateAuthRealm` for `routeSubDomain`. In the source it is a raw
-- string, so that its `\\.` is a backslash followed by any character but a newline:
--   ^[a-z0-9]([-a-z0-9]*[a-z0-9])?(\\.[a-z0-9]([-a-z0-9]*[a-z0-9])?)*$
use idp_mgmt_operator.Base.{
  ℕ, Bool, true, false, ◌&&◌, ◌||◌, List, [], ◌∷◌, leb, nat_eq, if◌then◌else◌,
}

-- `[a-z0-9]`, and `[-a-z0-9]`
abbrev pub is_alnum : ℕ → Bool
is_alnum c = (leb b'a' c && leb c b'z') || (leb b'0' c && leb c b'9')

abbrev pub is_label_char : ℕ → Bool
is_label_char c = is_alnum c || nat_eq c b'-'

-- Where a match stands: before the first character of a label, behind a letter or digit, behind a
-- dash, or behind a backslash. No character fits two parts of the expression there.
pub data Place : Type 0 where
  label_start after_alnum after_dash after_backslash fault : Place

unfoldable pub step : Place → ℕ → Place
step label_start c = if is_alnum c then after_alnum else fault
step after_alnum c =
    if is_alnum c
    then after_alnum
    else if nat_eq c b'-'
    then after_dash
    else if nat_eq c 0x5c
    then after_backslash
    else fault
step after_dash c = if is_alnum c then after_alnum else if nat_eq c b'-' then after_dash else fault
step after_backslash c = if nat_eq c 0x0a then fault else label_start
step fault c = fault

unfoldable pub is_final : Place → Bool
is_final after_alnum = true
is_final _ = false

unfoldable pub run : Place → List ℕ → Bool
run p [] = is_final p
run p (c ∷ cs) = run (step p c) cs

-- `domainRegex.MatchString`, over the code points of the text
unfoldable pub domain_regex_matches : List ℕ → Bool
domain_regex_matches cs = run label_start cs
