-- ===== src/Api/Auth.antt =====
-- internal/api/auth.go: the keys of the API. Strings are lists of bytes; `strings.TrimSpace` and
-- `strings.EqualFold` are parameters.
use mathlib.Core.Option.{some-injective}
use netflow_collector.Base.{
  ℕ, suc, ◌+◌, ◌≡◌, ◌≢◌, refl, ap, sym, ◌∙◌, subst, Bool, true, false, not, ◌&&◌, ◌||◌, Option,
  none, some, List, [], ◌∷◌, length, take, drop, In, here, there, ◌↔◌, leb, ◌==◌, ==_iff,
  if◌then◌else◌, arith, Bool-cases, inl, inr,
}

abbrev pub Text : Type 0
Text = List ℕ

unfoldable pub bytes_eq : Text → Text → Bool
bytes_eq [] [] = true
bytes_eq [] (b ∷ bs) = false
bytes_eq (a ∷ as_) [] = false
bytes_eq (a ∷ as_) (b ∷ bs) = let rest = bytes_eq as_ bs in (a == b) && rest

-- "Bearer "
abbrev pub scheme : Text
scheme = 66 ∷ 101 ∷ 97 ∷ 114 ∷ 101 ∷ 114 ∷ 32 ∷ []

abbrev pub is_empty : Text → Bool
is_empty [] = true
is_empty (b ∷ bs) = false

-- The accumulation over every key; `matched |= 1` for a key that is equal.
unfoldable pub key_matches : List Text → Text → Bool
key_matches [] token = false
key_matches (k ∷ ks) token = let rest = key_matches ks token in bytes_eq k token || rest

pub data ConfigError : Type 0 where
  no_keys : ConfigError
  empty_key : ℕ → ConfigError

module _ (trim_space : Text → Text) where
  unfoldable pub check_keys : ℕ → List Text → Option ConfigError
  check_keys i [] = none
  check_keys i (k ∷ ks) =
      let rest = check_keys (suc i) ks in
      if is_empty (trim_space k) then some (empty_key (i + 1)) else rest

  -- `CheckConfig`: an API without an address is disabled.
  unfoldable pub check_config : Text → List Text → Option ConfigError
  check_config http_addr keys =
      if is_empty http_addr
      then none
      else if length keys == 0
      then some no_keys
      else check_keys 0 keys

  module _ (equal_fold : Text → Text → Bool) where
    unfoldable pub bearer_token : Text → Option Text
    bearer_token header =
        if leb (length header) (length scheme)
          || not (equal_fold (take (length scheme) header) scheme)
        then none
        else if is_empty (trim_space (drop (length scheme) header))
        then none
        else some (trim_space (drop (length scheme) header))

    unfoldable pub accepts : List Text → Option Text → Bool
    accepts keys none = false
    accepts keys (some token) = key_matches keys token

    -- Whether `requireAPIKey` goes on to the handler; otherwise it answers 401.
    unfoldable pub authorized : List Text → Text → Bool
    authorized keys header = accepts keys (bearer_token header)

pub bytes_eq_sound : (a b : Text) → bytes_eq a b ≡ true → a ≡ b
unfolding bytes_eq
bytes_eq_sound [] [] e = refl
bytes_eq_sound [] (b ∷ bs) e = absurd (ground arith)
bytes_eq_sound (a ∷ as_) [] e = absurd (ground arith)
bytes_eq_sound (a ∷ as_) (b ∷ bs) e = elim (Bool-cases (a == b)) [
  | inl same ↦
      let rest : bytes_eq as_ bs ≡ true = ground (arith, same) in
      ap (λ n. n ∷ as_) ((==_iff a b).0 same) ∙ ap (λ l. b ∷ l) (bytes_eq_sound as_ bs rest)
  | inr other ↦ absurd (ground (arith, other))
]

bytes_eq_refl : (a : Text) → bytes_eq a a ≡ true
unfolding bytes_eq
bytes_eq_refl [] = refl
bytes_eq_refl (a ∷ as_) = rw ((==_iff a a).1 refl, bytes_eq_refl as_) refl

key_matches_sound :
    (keys : List Text) (token : Text) → key_matches keys token ≡ true → In token keys
unfolding key_matches
key_matches_sound [] token e = absurd (ground arith)
key_matches_sound (k ∷ ks) token e = elim (Bool-cases (bytes_eq k token)) [
  | inl same ↦ here (sym (bytes_eq_sound k token same))
  | inr other ↦ there (key_matches_sound ks token (ground (arith, other)))
]

key_matches_complete :
    (keys : List Text) (token : Text) → In token keys → key_matches keys token ≡ true
unfolding key_matches
key_matches_complete [] token i = elim i [ ]
key_matches_complete (k ∷ ks) token (here e) =
    rw (subst (λ t. bytes_eq t token ≡ true) e (bytes_eq_refl token)) refl
key_matches_complete (k ∷ ks) token (there i) = ground (arith, key_matches_complete ks token i)

module _ (trim_space : Text → Text) (equal_fold : Text → Text → Bool) where
  accepts_iff :
      (keys : List Text) (found : Option Text)
      → (accepts trim_space equal_fold keys found ≡ true)
        ↔ ((token : Text) × (found ≡ some token) × In token keys)
  unfolding accepts
  accepts_iff keys none = (λ e. absurd (ground arith), λ h. absurd (ground arith))
  accepts_iff keys (some token) = (
    λ e. (token, refl, key_matches_sound keys token e),
    λ h.
        let (t, e, i) = h in
        key_matches_complete keys token (subst (λ u. In u keys) (sym (some-injective _ _ e)) i),
  )

  -- A request passes the middleware exactly if its header carries a bearer token that is one of the keys;
  -- which key it is, and where it stands, makes no difference.
  pub authorized_iff :
      (keys : List Text) (header : Text)
      → (authorized trim_space equal_fold keys header ≡ true) ↔ (
          (token : Text) × (bearer_token trim_space equal_fold header ≡ some token) × In token keys)
  unfolding authorized
  authorized_iff keys header = accepts_iff keys (bearer_token trim_space equal_fold header)

  bearer_token-trimmed :
      (header token : Text)
      → ((t : Text) → trim_space (trim_space t) ≡ trim_space t)
      → bearer_token trim_space equal_fold header ≡ some token
      → trim_space token ≡ token
  unfolding bearer_token
  bearer_token-trimmed header token again e =
      elim (Bool-cases (
        leb (length header) (length scheme)
        || not (equal_fold (take (length scheme) header) scheme))) [
          | inl malformed ↦ absurd (ground (arith, malformed))
          | inr formed ↦ elim (Bool-cases (is_empty (trim_space (drop (length scheme) header)))) [
            | inl empty ↦ absurd (ground (arith, formed, empty))
            | inr full ↦
                let found : some (trim_space (drop (length scheme) header)) ≡ some token =
                  ground (arith, formed, full) in
                subst (λ t. trim_space t ≡ t) (some-injective _ _ found)
                  (again (drop (length scheme) header))
          ]
        ]

  -- A configured key with white space around it opens nothing, if trimming twice is trimming once: with no
  -- other key in the list, no header passes the middleware.
  pub untrimmed_key_rejected :
      (key header : Text)
      → ((t : Text) → trim_space (trim_space t) ≡ trim_space t)
      → trim_space key ≢ key
      → authorized trim_space equal_fold (key ∷ []) header ≡ false
  untrimmed_key_rejected key header again h =
      elim (Bool-cases (authorized trim_space equal_fold (key ∷ []) header)) [
        | inl passes ↦
            let (token, e, i) = (authorized_iff (key ∷ []) header).0 passes in
            absurd (elim i [
              | here same ↦
                  h (subst (λ t. trim_space t ≡ t) same (bearer_token-trimmed header token again e))
              | there j ↦ elim j [ ]
            ])
        | inr stopped ↦ stopped
      ]
