-- ===== src/Webhook/Labels.antt =====
-- Which sub-domains the expression accepts, against a description of DNS labels.
use idp_mgmt_operator.Base.{
  ℕ, Bool, true, false, not, ◌&&◌, List, [], ◌∷◌, ◌≡◌, refl, arith, all, any, nat_eq,
}
use idp_mgmt_operator.Webhook.Domain.{
  is_alnum, is_label_char, after_alnum, after_dash, fault, step, is_final, run,
  domain_regex_matches,
}

-- Whether the last character is a letter or digit; the first argument answers for the empty text.
abbrev pub ends_alnum : Bool → List ℕ → Bool
ends_alnum before [] = before
ends_alnum before (c ∷ cs) = ends_alnum (is_alnum c) cs

abbrev pub starts_alnum : List ℕ → Bool
starts_alnum [] = false
starts_alnum (c ∷ cs) = is_alnum c

-- A DNS-1123 label: letters, digits and dashes, with a letter or digit at both ends.
abbrev pub is_dns_label : List ℕ → Bool
is_dns_label cs = starts_alnum cs && all is_label_char cs && ends_alnum false cs

abbrev pub has_no_backslash : List ℕ → Bool
has_no_backslash cs = all (λ c. not (nat_eq c 0x5c)) cs

run-fault : (cs : List ℕ) → run fault cs ≡ false
unfolding run step is_final
run-fault [] = refl
run-fault (c ∷ cs) = run-fault cs

run_in_label :
    (cs : List ℕ)
    → has_no_backslash cs ≡ true
    → (run after_alnum cs ≡ (all is_label_char cs && ends_alnum true cs))
      × (run after_dash cs ≡ (all is_label_char cs && ends_alnum false cs))
unfolding run step is_final
run_in_label [] h = (refl, refl)
run_in_label (c ∷ cs) h = ground (arith, run_in_label cs, run-fault cs)

-- A sub-domain that holds no backslash is accepted exactly when it is one DNS label.
pub domain_regex_matches-of_plain :
    (cs : List ℕ) → has_no_backslash cs ≡ true → domain_regex_matches cs ≡ is_dns_label cs
unfolding domain_regex_matches run step is_final
domain_regex_matches-of_plain [] h = refl
domain_regex_matches-of_plain (c ∷ cs) h = ground (arith, run_in_label cs, run-fault cs)

label_chars-dot : (cs : List ℕ) → any (λ c. nat_eq c b'.') cs ≡ true → all is_label_char cs ≡ false
label_chars-dot [] dot = cc
label_chars-dot (c ∷ cs) dot = ground (arith, label_chars-dot cs)

-- A sub-domain that holds a dot and no backslash is refused, though the message of the refusal and
-- the name of the expression allow dots.
pub dotted_refused :
    (cs : List ℕ)
    → has_no_backslash cs ≡ true
    → any (λ c. nat_eq c b'.') cs ≡ true
    → domain_regex_matches cs ≡ false
dotted_refused cs h dot =
    rw (domain_regex_matches-of_plain cs h, label_chars-dot cs dot) (ground arith)
