-- ===== src/Policy/Rules.antt =====
-- src/policy/engine.js: rules, the patterns in them, and the choice among the rules that match.
use Prim.Native.Char.{code}
use etnpilot.Common.{
  ℕ, Bool, true, false, ◌&&◌, ◌||◌, Option, none, some, List, [], ◌∷◌, ◌++◌, String, if◌then◌else◌,
  ltb, ◌==◌, any, all, is_some, keep,
}

pub data Effect : Type 0 where
  allow human deny : Effect

-- EFFECT_PRIORITY.
abbrev pub priority : Effect → ℕ
priority allow = 1
priority human = 2
priority deny = 3

abbrev pub is_deny : Effect → Bool
is_deny deny = true
is_deny _ = false

abbrev pub is_human : Effect → Bool
is_human human = true
is_human _ = false

-- What a rule can restrict.
pub data Matcher : Type 0 where
  kinds agents paths hosts commands providers : Matcher

abbrev pub is_paths : Matcher → Bool
is_paths paths = true
is_paths _ = false

abbrev pub is_hosts : Matcher → Bool
is_hosts hosts = true
is_hosts _ = false

abbrev pub is_commands : Matcher → Bool
is_commands commands = true
is_commands _ = false

-- A normalized rule: `patterns m` is the list under the field `m`, if the rule has it.
pub record Rule : Type 0 where
  pub id : String
  pub effect : Effect
  pub patterns : Matcher → Option (List String)

pub record Section : Type 0 where
  pub default : Effect
  pub rules : List Rule
  pub matchers : List Matcher

abbrev pub Facts : Type 0
Facts = Matcher → Option String

-- What the section decides: the rule, or that it is the default.
pub record Decision : Type 0 where
  pub effect : Effect
  pub rule : Option String

-- `/[|\\{}()[\]^$+?.]/`.
unfoldable pub is_special : ℕ → Bool
is_special c =
    c == b'|'
    || c == b'\\'
    || c == b'{'
    || c == b'}'
    || c == b'('
    || c == b')'
    || c == b'['
    || c == b']'
    || c == b'^'
    || c == b'$'
    || c == b'+'
    || c == b'?'
    || c == b'.'

-- A text as the list of its characters.
abbrev pub codes : String → List ℕ
codes String.[] = []
codes (String.◌∷◌ c s) = code c ∷ codes s

-- A character that stands for itself.
abbrev pub escaped : ℕ → List ℕ
unfolding is_special
escaped c = if is_special c then b'\\' ∷ c ∷ [] else c ∷ []

-- A character of a glob, where it is not the first of two stars.
abbrev pub glob_one : ℕ → List ℕ
unfolding escaped
glob_one c = if c == b'*' then codes "[^/]*" else if c == b'?' then codes "[^/]" else escaped c

-- `globSource`: '**/' is any directories, '**' anything, '*' and '?' do not cross a slash.
unfoldable pub glob_source : List ℕ → List ℕ
unfolding glob_one
glob_source [] = []
glob_source (c ∷ []) = glob_one c
glob_source (c ∷ d ∷ []) =
    let next = glob_one c ++ glob_source (d ∷ []) in
    if c == b'*' && d == b'*' then codes ".*" else next
glob_source (c ∷ d ∷ e ∷ rest) =
    let next = glob_one c ++ glob_source (d ∷ e ∷ rest) in
    let after_two = codes ".*" ++ glob_source (e ∷ rest) in
    let after_three = codes "(?:.*/)?" ++ glob_source rest in
    if c == b'*' && d == b'*' then (if e == b'/' then after_three else after_two) else next

abbrev pub command_one : ℕ → List ℕ
unfolding escaped
command_one c = if c == b'*' then codes "[^ ]*" else escaped c

-- The loop of `commandMatch`: '*' is one word, '**' is anything.
unfoldable pub command_source : List ℕ → List ℕ
unfolding command_one
command_source [] = []
command_source (c ∷ []) = command_one c
command_source (c ∷ d ∷ rest) =
    let next = command_one c ++ command_source (d ∷ rest) in
    let after_two = codes ".*" ++ command_source rest in
    if c == b'*' && d == b'*' then after_two else next

-- What the program takes from its platform: `new RegExp(source, flags).test(text)` with the flag
-- `i` or none, `toLowerCase`, the host of a URL, and where a path lies: its place relative to the
-- workspace, if it has one, and whether it lies outside.
pub record Platform : Type 0 where
  pub test : List ℕ → Bool → String → Bool
  pub lower_case : String → String
  pub host_of : String → Option String
  pub locate : String → Option String → Option String × Bool

abbrev pub anchored : List ℕ → List ℕ
anchored source = b'^' ∷ (source ++ b'$' ∷ [])

module _ (platform : Platform) where
  unfoldable pub glob_match : String → String → Bool → Bool
  unfolding glob_source
  glob_match pattern value ignore_case =
      platform.test (anchored (glob_source (codes pattern))) ignore_case value

  unfoldable pub command_match : String → String → Bool
  unfolding command_source
  command_match pattern value =
      platform.test (anchored (command_source (codes pattern))) false value

  -- Whether the patterns of a rule under a matcher, if it has any, take the fact, if there is one.
  unfoldable pub patterns_pass :
      (outside case_insensitive : Bool) → Matcher → Option (List String) → Option String → Bool
  unfolding glob_match command_match
  patterns_pass outside case_insensitive m none fact = true
  patterns_pass outside case_insensitive m (some ps) none = false
  patterns_pass outside case_insensitive m (some ps) (some fact) =
      if is_paths m && outside
      then false
      else if is_commands m
      then any (λ p. command_match p fact) ps
      else any (λ p. glob_match p fact (is_hosts m || is_paths m && case_insensitive)) ps

  abbrev pub rule_matches : (outside case_insensitive : Bool) → List Matcher → Facts → Rule → Bool
  rule_matches outside case_insensitive matchers facts r =
      all (λ m. patterns_pass outside case_insensitive m (r.patterns m) (facts m)) matchers

abbrev pub stricter : Rule → Rule → Rule
stricter selected candidate =
    if ltb (priority selected.effect) (priority candidate.effect) then candidate else selected

-- `strictest`, of a first rule and the others: of equal ones, the first.
unfoldable pub strictest : Rule → List Rule → Rule
strictest r [] = r
strictest r (c ∷ cs) = strictest (stricter r c) cs

abbrev pub by_rule : Rule → Decision
by_rule r = record { effect = r.effect; rule = some r.id }

abbrev pub has_commands : Rule → Bool
has_commands r = is_some (r.patterns commands)

-- The rules that name a command decide, if there are any.
unfoldable pub prefer_named : Rule → List Rule → Decision
unfolding strictest
prefer_named chosen [] = by_rule chosen
prefer_named chosen (r ∷ rs) = by_rule (strictest r rs)

-- What the rules that match come to.
unfoldable pub decide : Effect → List Rule → Decision
unfolding strictest prefer_named
decide default [] = record { effect = default; rule = none }
decide default (r ∷ rs) =
    let chosen = strictest r rs in
    if is_deny chosen.effect
    then by_rule chosen
    else prefer_named chosen (keep has_commands (r ∷ rs))

-- `selectDecision`.
unfoldable pub select_decision :
    Platform → (outside case_insensitive : Bool) → Section → Facts → Decision
unfolding decide
select_decision platform outside case_insensitive section facts =
    decide section.default
      (keep (rule_matches platform outside case_insensitive section.matchers facts) section.rules)
