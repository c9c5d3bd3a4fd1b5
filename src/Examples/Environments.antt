-- ===== src/Examples/Environments.antt =====
-- A .env file and a shell.
use netflow_collector.Base.{◌≡◌, refl, none, some, List, [], ◌∷◌, Text, codes, equal}
use netflow_collector.App.Environment.{
  get, is_space, trim_left, trim_right, trim_prefix, cut, unquote, parse_line, vars, bad_line,
  parse_dot_env, find_dot_env, overlay,
}

abbrev lines : List Text
lines =
    codes "# comment"
    ∷ codes "  "
    ∷ codes "export NFC_WORKERS = 4 "
    ∷ codes "\tNFC_SINKS=\"kafka, postgres\""
    ∷ codes "EMPTY="
    ∷ codes "URL='a=b'"
    ∷ []

parse_lines :
    parse_dot_env 1 lines []
    ≡ vars (
        (codes "URL", codes "a=b")
        ∷ (codes "EMPTY", [])
        ∷ (codes "NFC_SINKS", codes "kafka, postgres")
        ∷ (codes "NFC_WORKERS", codes "4")
        ∷ [])
unfolding parse_dot_env parse_line trim_left trim_right trim_prefix cut unquote is_space
parse_lines = refl

no_equals : parse_dot_env 1 (codes "A=1" ∷ codes "oops" ∷ []) [] ≡ bad_line 2
unfolding parse_dot_env parse_line trim_left trim_right trim_prefix cut unquote is_space
no_equals = refl

shell_wins :
    get
      (codes "A")
      (overlay (codes "A=2" ∷ codes "junk" ∷ codes "A=3=4" ∷ []) ((codes "A", codes "1") ∷ []))
    ≡ some (codes "3=4")
unfolding overlay cut get
shell_wins = refl

too_far :
    find_dot_env
      (λ n. equal n (codes "x"))
      ([] ∷ [] ∷ [] ∷ [] ∷ [] ∷ [] ∷ [] ∷ [] ∷ [] ∷ [] ∷ [] ∷ codes "x" ∷ [])
    ≡ none
unfolding find_dot_env
too_far = refl
