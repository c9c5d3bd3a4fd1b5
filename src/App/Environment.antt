-- ===== src/App/Environment.antt =====
-- internal/config/config.go: the .env file, and the variables that `parse` is given. Texts are lists of
-- code points; the file system is a parameter.
use netflow_collector.Base.{
  ℕ, suc, ◌≡◌, refl, Bool, ◌&&◌, ◌||◌, Option, none, some, List, [], ◌∷◌, take, leb, ◌==◌,
  if◌then◌else◌, Text, codes, equal, ap, ◌∙◌,
}
use netflow_collector.App.Settings.{Config, Parsed, parse}

-- A Go map from texts: the entry that was set last stands first.
abbrev pub Vars : Type 0
Vars = List (Text × Text)

unfoldable pub get : Text → Vars → Option Text
get k [] = none
get k ((j, v) ∷ m) = if equal j k then some v else get k m

-- `unicode.IsSpace`
unfoldable pub is_space : ℕ → Bool
is_space c =
    (leb 9 c && leb c 13)
    || c == 32
    || c == 0x85
    || c == 0xa0
    || c == 0x1680
    || (leb 0x2000 c && leb c 0x200a)
    || c == 0x2028
    || c == 0x2029
    || c == 0x202f
    || c == 0x205f
    || c == 0x3000

unfoldable pub trim_left : Text → Text
trim_left [] = []
trim_left (c ∷ s) = let rest = trim_left s in if is_space c then rest else c ∷ s

-- A character before a text whose end was trimmed.
abbrev keep_or_drop : ℕ → Text → Text
keep_or_drop c [] = if is_space c then [] else c ∷ []
keep_or_drop c (d ∷ s) = c ∷ d ∷ s

unfoldable pub trim_right : Text → Text
trim_right [] = []
trim_right (c ∷ s) = keep_or_drop c (trim_right s)

-- `strings.TrimSpace`
abbrev pub trim_space : Text → Text
trim_space s = trim_right (trim_left s)

-- `strings.TrimPrefix`: the text behind a prefix, if it has that.
abbrev behind : Text → Text → Option Text
behind [] s = some s
behind (p ∷ ps) [] = none
behind (p ∷ ps) (c ∷ s) = let rest = behind ps s in if p == c then rest else none

unfoldable pub trim_prefix : Text → Text → Text
trim_prefix p s = elim (behind p s) [ none ↦ s | some rest ↦ rest ]

-- `strings.Cut`, by one character
unfoldable pub cut : ℕ → Text → Option (Text × Text)
cut sep [] = none
cut sep (c ∷ s) =
    let later = cut sep s in
    if c == sep then some ([], s) else elim later [ none ↦ none | some (a, b) ↦ some (c ∷ a, b) ]

abbrev last_of : ℕ → Text → ℕ
last_of c [] = c
last_of c (d ∷ s) = last_of d s

abbrev without_last : Text → Text
without_last [] = []
without_last (c ∷ []) = []
without_last (c ∷ d ∷ s) = c ∷ without_last (d ∷ s)

-- A value in matching quotes loses them.
unfoldable pub unquote : Text → Text
unquote [] = []
unquote (c ∷ []) = c ∷ []
unquote (q ∷ d ∷ s) =
    if (q == b'"' || q == b'\'') && last_of d s == q then without_last (d ∷ s) else q ∷ d ∷ s

pub data Line : Type 0 where
  skipped : Line
  assigned : Text → Text → Line
  malformed : Line

abbrev assign : Option (Text × Text) → Line
assign none = malformed
assign (some (key, value)) =
    if equal (trim_space key) []
    then malformed
    else assigned (trim_space key) (unquote (trim_space value))

abbrev content_of : Text → Line
content_of [] = skipped
content_of (c ∷ s) =
    if c == b'#' then skipped else assign (cut b'=' (trim_prefix (codes "export ") (c ∷ s)))

unfoldable pub parse_line : Text → Line
parse_line s = content_of (trim_space s)

pub data DotEnv : Type 0 where
  vars : Vars → DotEnv
  bad_line : ℕ → DotEnv

-- `parseDotEnv`, of the lines that the scanner gives, from the line with this number.
unfoldable pub parse_dot_env : ℕ → List Text → Vars → DotEnv
parse_dot_env n [] m = vars m
parse_dot_env n (s ∷ lines) m = elim (parse_line s) [
  | skipped ↦ parse_dot_env (suc n) lines m
  | assigned k v ↦ parse_dot_env (suc n) lines ((k, v) ∷ m)
  | malformed ↦ bad_line n
]

abbrev pub max_walk_up : ℕ
max_walk_up = 10

abbrev first_file : {D : Type 0} → (D → Bool) → List D → Option D
first_file is_file [] = none
first_file is_file (d ∷ ds) =
    let later = first_file is_file ds in if is_file d then some d else later

-- `findDotEnv`: `dirs` are the directory and its parents up to the root, `is_file` whether a directory
-- has a file named .env.
unfoldable pub find_dot_env : {D : Type 0} → (D → Bool) → List D → Option D
find_dot_env is_file dirs = first_file is_file (take (suc max_walk_up) dirs)

abbrev pub set_entry : Option (Text × Text) → Vars → Vars
set_entry none m = m
set_entry (some entry) m = entry ∷ m

-- The shell's variables over those of the file; an entry without = is passed over.
unfoldable pub overlay : List Text → Vars → Vars
overlay [] m = m
overlay (kv ∷ environ) m = overlay environ (set_entry (cut b'=' kv) m)

pub data Loaded : Type 0 where
  parsed : Parsed → Loaded
  not_opened : Loaded
  not_parsed : ℕ → Loaded

-- `read` gives the lines of a directory's .env, if it can be opened; `bind` binds the variables.
module _ {D : Type 0} (is_file : D → Bool) (read : D → Option (List Text))
    (bind : Vars → Option Config) (validates : Config → Bool) where
  abbrev bound : List Text → DotEnv → Loaded
  bound environ (vars m) = parsed (parse validates (bind (overlay environ m)))
  bound environ (bad_line n) = not_parsed n

  abbrev opened : List Text → Option (List Text) → Loaded
  opened environ none = not_opened
  opened environ (some lines) = bound environ (parse_dot_env 1 lines [])

  abbrev found : List Text → Option D → Loaded
  found environ none = bound environ (vars [])
  found environ (some d) = opened environ (read d)

  unfoldable pub load : List D → List Text → Loaded
  load dirs environ = found environ (find_dot_env is_file dirs)

abbrev value_in : Text → Option (Text × Text) → Option Text → Option Text
value_in k none o = o
value_in k (some (j, v)) o = if equal j k then some v else o

-- The value that the shell gives a variable: its last entry counts.
unfoldable pub last_entry : Text → List Text → Option Text → Option Text
last_entry k [] o = o
last_entry k (kv ∷ environ) o = last_entry k environ (value_in k (cut b'=' kv) o)

get-set_entry :
    (k : Text) (e : Option (Text × Text)) (m : Vars)
    → get k (set_entry e m) ≡ value_in k e (get k m)
unfolding get
get-set_entry k none m = refl
get-set_entry k (some entry) m = refl

-- A variable that the shell sets has the shell's value, its last one, and any other has the file's.
pub get-overlay :
    (k : Text) (environ : List Text) (m : Vars)
    → get k (overlay environ m) ≡ last_entry k environ (get k m)
unfolding overlay last_entry
get-overlay k [] m = refl
get-overlay k (kv ∷ environ) m =
    get-overlay k environ (set_entry (cut b'=' kv) m)
    ∙ ap (last_entry k environ) (get-set_entry k (cut b'=' kv) m)
