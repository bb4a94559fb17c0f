-- ===== src/Helpers/Random.antt =====
-- pkg/helpers/random.go: a random text over a dictionary. The bytes come from `crypto/rand`, which
-- is the argument: `none` is a failure to read, after which the bytes stay zero.
use idp_mgmt_operator.Base.{
  ℕ, zero, suc, ◌%◌, String, Option, none, some, List, [], ◌∷◌, length, get_elem?, replicate, codes,
}
use idp_mgmt_operator.Api.Action.{Result, ok, err, panic}

pub data RandomType : Type 0 where
  number alpha alpha_num password : RandomType
  other : String → RandomType

unfoldable pub dictionary : RandomType → String
dictionary password = "abcdefghijklmnopqrstuvwxyzABCDEFGHIJKLMNOPQRSTUVWXYZ0123456789_?!&@"
dictionary alpha_num = "0123456789ABCDEFGHIJKLMNOPQRSTUVWXYZabcdefghijklmnopqrstuvwxyz"
dictionary alpha = "ABCDEFGHIJKLMNOPQRSTUVWXYZabcdefghijklmnopqrstuvwxyz"
dictionary number = "0123456789"
dictionary (other t) = ""

-- An index out of range panics.
abbrev pub or_panic : Option ℕ → Result ℕ
or_panic none = panic
or_panic (some c) = ok c

unfoldable pub pick_below : List ℕ → ℕ → ℕ → Result ℕ
pick_below letters v zero = panic
pick_below letters v (suc n) = or_panic (get_elem? letters (v % suc n))

-- `dictionary[v%byte(len(dictionary))]`: a remainder by zero panics.
unfoldable pub pick : List ℕ → ℕ → Result ℕ
unfolding pick_below
pick letters v = pick_below letters v (length letters)

abbrev pub push_letter : Result ℕ → Result (List ℕ) → Result (List ℕ)
push_letter (ok c) (ok cs) = ok (c ∷ cs)
push_letter (ok c) (err e) = err e
push_letter (ok c) panic = panic
push_letter (err e) cs = err e
push_letter panic cs = panic

unfoldable pub pick_all : List ℕ → List ℕ → Result (List ℕ)
unfolding pick
pick_all letters [] = ok []
pick_all letters (v ∷ vs) = push_letter (pick letters v) (pick_all letters vs)

-- `RandomString`, with the bytes of the result; `rand.Read` fills all of them or fails.
unfoldable pub random_string : ℕ → RandomType → Option (List ℕ) → Result (List ℕ)
unfolding dictionary pick_all
random_string str_size rand_type none = ok (replicate str_size 0)
random_string str_size rand_type (some bytes) = pick_all (codes (dictionary rand_type)) bytes
