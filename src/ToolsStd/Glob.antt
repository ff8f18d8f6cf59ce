-- ===== src/ToolsStd/Glob.antt =====
-- crates/tools-std/src/policy.rs: the deny-globs on a path.
use Prim.Native.Char.{Char, code}
use rof_harness.Base.{
  ℕ, zero, suc, String, Bool, false, ◌&&◌, ◌||◌, not, Option, none, some, List, [], ◌∷◌, leb, ◌==◌,
  str_eq, any, if◌then◌else◌,
}
use rof_harness.Base.Chars.{is_empty_text, starts_with}

abbrev pub is_star : Char → Bool
is_star c = code c == 42

abbrev pub is_slash : Char → Bool
is_slash c = code c == 47

unfoldable pub has_slash : String → Bool
has_slash String.[] = false
has_slash (String.◌∷◌ c s) = is_slash c || has_slash s

-- `**/`: the rest matches here, or behind some slash.
unfoldable pub behind_slash : (String → Bool) → String → Bool
behind_slash rest String.[] = false
behind_slash rest (String.◌∷◌ c s) = is_slash c && rest s || behind_slash rest s

-- A run of stars before a character: the rest matches here, or further on without crossing a slash.
unfoldable pub within_segment : (String → Bool) → String → Bool
within_segment rest String.[] = rest ""
within_segment rest (String.◌∷◌ c s) =
    rest (String.◌∷◌ c s) || not (is_slash c) && within_segment rest s

abbrev pub match_char : Char → (String → Bool) → String → Bool
match_char c more String.[] = false
match_char c more (String.◌∷◌ d s) = code c == code d && more s

-- The function `go` behind `stars` stars that it has read. Two of them and a slash are the `**/`
-- that it looks for first.
unfoldable pub glob_from : ℕ → String → String → Bool
unfolding behind_slash within_segment has_slash
glob_from zero String.[] s = is_empty_text s
glob_from (suc stars) String.[] s = leb 2 (suc stars) || not (has_slash s)
glob_from stars (String.◌∷◌ c p) s =
    let more = glob_from (suc stars) p s in
    let rest = glob_from 0 p in
    if is_star c
    then more
    else if stars == 2 && is_slash c
    then rest s || behind_slash rest s
    else if stars == 0
    then match_char c rest s
    else within_segment (match_char c rest) s

unfoldable pub glob_match : String → String → Bool
unfolding glob_from
glob_match pat path = glob_from 0 pat path

abbrev pub default_denied_globs : List String
default_denied_globs =
    "**/.env" ∷ "**/.env.*" ∷ "**/*.pem" ∷ "**/*.key" ∷ "**/id_rsa*" ∷ "**/.npmrc" ∷ "**/.netrc"
    ∷ "**/.aws" ∷ "**/.aws/**" ∷ "**/.ssh" ∷ "**/.ssh/**" ∷ []

-- `rel.rsplit('/').next()`.
unfoldable pub base_name : String → String
unfolding has_slash
base_name String.[] = ""
base_name (String.◌∷◌ c s) =
    let rest = base_name s in if has_slash (String.◌∷◌ c s) then rest else String.◌∷◌ c s

unfoldable pub is_env_template : String → Bool
unfolding base_name
is_env_template rel =
    any (str_eq (base_name rel)) (".env.example" ∷ ".env.sample" ∷ ".env.template" ∷ [])

-- The loop over the globs in `resolve_under`: whether one of them denies the relative path.
unfoldable pub glob_denies : List String → String → Bool
unfolding glob_match is_env_template starts_with
glob_denies globs rel =
    any (λ g. not (starts_with g "**/.env" && is_env_template rel) && glob_match g rel) globs

pub data ExecPolicy : Type 0 where
  allowlist any_cmd : ExecPolicy

-- `ExecPolicy::from_str`, with nothing for the error.
unfoldable pub exec_policy : String → Option ExecPolicy
exec_policy s =
    if str_eq s "allowlist" then some allowlist else if str_eq s "any" then some any_cmd else none
