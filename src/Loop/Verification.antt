-- ===== src/Loop/Verification.antt =====
-- crates/agent-loop/src/verify.rs: which calls are verification runs. A command is the code points
-- of its text.
use Prim.Native.Char.{code}
use rof_harness.Base.{
  ℕ, String, Bool, true, false, ◌&&◌, ◌||◌, not, Option, none, some, List, [], ◌∷◌, any, is_empty,
  keep, ◌==◌, str_eq, if◌then◌else◌,
}
use rof_harness.Base.Chars.{is_whitespace}
use rof_harness.Host.{Host}
use rof_harness.Tools.{tool_test, tool_exec}

abbrev pub codes : String → List ℕ
codes String.[] = []
codes (String.◌∷◌ c s) = code c ∷ codes s

unfoldable pub list_eq : List ℕ → List ℕ → Bool
list_eq [] [] = true
list_eq [] (y ∷ ys) = false
list_eq (x ∷ xs) [] = false
list_eq (x ∷ xs) (y ∷ ys) = x == y && list_eq xs ys

unfoldable pub ends_with : List ℕ → List ℕ → Bool
unfolding list_eq
ends_with [] suffix = is_empty suffix
ends_with (x ∷ xs) suffix = list_eq (x ∷ xs) suffix || ends_with xs suffix

-- `replace("&&", ";")` at the doubled character `c`, from left to right.
unfoldable pub replace_pair : ℕ → List ℕ → List ℕ
replace_pair c [] = []
replace_pair c (x ∷ []) = x ∷ []
replace_pair c (x ∷ y ∷ rest) = elim (x == c && y == c) [
  | true ↦ b';' ∷ replace_pair c rest
  | false ↦ x ∷ replace_pair c (y ∷ rest)
]

abbrev pub onto_first : ℕ → List (List ℕ) → List (List ℕ)
onto_first b [] = (b ∷ []) ∷ []
onto_first b (l ∷ ls) = (b ∷ l) ∷ ls

-- The pieces between the characters that pass the test.
unfoldable pub split_on : (ℕ → Bool) → List ℕ → List (List ℕ)
split_on p [] = [] ∷ []
split_on p (c ∷ cs) = let rest = split_on p cs in if p c then [] ∷ rest else onto_first c rest

unfoldable pub split_whitespace : List ℕ → List (List ℕ)
unfolding is_whitespace split_on
split_whitespace cs = keep (λ w. not (is_empty w)) (split_on is_whitespace cs)

-- The slice patterns on the tokens of one segment.
unfoldable pub runs_npm_script : List (List ℕ) → Bool
unfolding list_eq
runs_npm_script [] = false
runs_npm_script (script ∷ _) = list_eq script (codes "test")

unfoldable pub second_word : List ℕ → List (List ℕ) → Bool
unfolding list_eq runs_npm_script
second_word first [] = false
second_word first (second ∷ more) =
    (list_eq first (codes "cargo") || list_eq first (codes "go") || list_eq first (codes "npm"))
      && list_eq second (codes "test")
    || list_eq first (codes "npm") && list_eq second (codes "run") && runs_npm_script more

unfoldable pub runs_tests : List (List ℕ) → Bool
unfolding list_eq ends_with second_word
runs_tests [] = false
runs_tests (first ∷ rest) =
    list_eq first (codes "pytest") || ends_with first (codes "/pytest") || second_word first rest

abbrev pub is_separator : ℕ → Bool
is_separator c = c == b';' || c == b'|'

unfoldable pub all_words : List (List ℕ) → List (List (List ℕ))
unfolding split_whitespace
all_words [] = []
all_words (s ∷ ss) = split_whitespace s ∷ all_words ss

unfoldable pub segments : List ℕ → List (List (List ℕ))
unfolding replace_pair split_on all_words
segments cs = all_words (split_on is_separator (replace_pair b'|' (replace_pair b'&' cs)))

unfoldable pub command_verifies : List ℕ → Bool
unfolding segments runs_tests
command_verifies cs = any runs_tests (segments cs)

abbrev or_empty : Option String → String
or_empty none = ""
or_empty (some s) = s

unfoldable pub is_verification_call : (H : Host) → String → H.Value → Bool
unfolding command_verifies
is_verification_call H name args =
    if str_eq name tool_test
    then true
    else if not (str_eq name tool_exec)
    then false
    else command_verifies (codes (H.to_lowercase (or_empty (H.str_field args "cmd"))))
