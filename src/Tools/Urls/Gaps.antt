-- ===== src/Tools/Urls/Gaps.antt =====
-- What .pre-commit-hooks/block-prod-urls.py finds of the hosts that the guards of the tests forbid.
use nimbus_commerce_platform.Common.{
  ℕ, ◌≡◌, ◌≢◌, refl, Bool, true, false, not, ◌&&◌, List, [], ◌∷◌, ◌++◌, arith, ap, ◌==◌, Bool-cases,
  inl, inr,
}
use nimbus_commerce_platform.Common.Text.{codes, all, contains}
use nimbus_commerce_platform.Tools.Guards.{host_violations, prod_host_forbidden_substrings}
use nimbus_commerce_platform.Tools.Urls.{
  Pattern, prod_patterns, TrackedFile, is_allowed, allowlist, matches, search_line, is_flagged,
  scan_file, url_problems, block_main,
}

-- Whether a "." stands in a literal.
abbrev has_dot : List ℕ → Bool
has_dot literal = not (all (λ c. not (c == b'.')) literal)

host_violations-[] :
    (host : List ℕ) (forbidden : List (List ℕ))
    → host_violations host forbidden ≡ []
    → all (λ s. not (contains s host)) forbidden ≡ true
host_violations-[] host [] h = refl
host_violations-[] host (s ∷ forbidden) h = ground (arith, host_violations-[] host forbidden)

prod-forbidden :
    (rest : List ℕ) → host_violations (codes "prod-" ++ rest) prod_host_forbidden_substrings ≢ []
prod-forbidden rest h =
    let none_found = host_violations-[] (codes "prod-" ++ rest) prod_host_forbidden_substrings h in
    ground arith

and_true : (a b : Bool) → a && b ≡ true → (a ≡ true) × (b ≡ true)
and_true true b h = (refl, h)
and_true false b h = absurd (ground arith)

module _ (same_letter : ℕ → ℕ → Bool) where
  abbrev pub is_dotless : List ℕ → Bool
  is_dotless = all (λ c. not (same_letter b'.' c))

  matches-dotless :
      (at_end : Bool) (literal line : List ℕ)
      → has_dot literal ≡ true
      → is_dotless line ≡ true
      → matches same_letter at_end literal line ≡ false
  unfolding matches
  matches-dotless at_end [] line h d = absurd (ground arith)
  matches-dotless at_end (p ∷ literal) [] h d = refl
  matches-dotless at_end (p ∷ literal) (c ∷ line) h d = elim (Bool-cases (p == b'.')) [
    | inl e ↦ let dot : p ≡ b'.' = ground arith in ground (arith, ap (λ q. same_letter q c) dot)
    | inr e ↦ ground (arith, matches-dotless at_end literal line)
  ]

  search_line-dotless :
      (pattern : Pattern) (line : List ℕ)
      → has_dot pattern.literal ≡ true
      → is_dotless line ≡ true
      → search_line same_letter pattern line ≡ false
  unfolding search_line
  search_line-dotless pattern [] h d = matches-dotless pattern.at_end pattern.literal [] h d
  search_line-dotless pattern (c ∷ line) h d = ground (
    arith,
    matches-dotless pattern.at_end pattern.literal (c ∷ line) h d,
    search_line-dotless pattern line h,
  )

  is_flagged-dotless :
      (patterns : List Pattern) (line : List ℕ)
      → all (λ pattern. has_dot pattern.literal) patterns ≡ true
      → is_dotless line ≡ true
      → is_flagged same_letter patterns line ≡ false
  unfolding is_flagged
  is_flagged-dotless [] line h d = refl
  is_flagged-dotless (pattern ∷ patterns) line h d =
      ground (arith, search_line-dotless pattern line, is_flagged-dotless patterns line)

  scan_file-dotless :
      (lines : List (List ℕ)) → all is_dotless lines ≡ true → scan_file same_letter lines ≡ []
  unfolding scan_file
  scan_file-dotless [] d = refl
  scan_file-dotless (line ∷ lines) d =
      ground (arith, is_flagged-dotless prod_patterns line refl, scan_file-dotless lines)

  allowed-[] :
      (allowed : Bool) (found others : List (List ℕ))
      → found ≡ []
      → others ≡ []
      → elim allowed [ true ↦ others | false ↦ found ++ others ] ≡ []
  allowed-[] true found others f o = o
  allowed-[] false found others f o = rw (f, o) refl

  abbrev pub are_dotless : List TrackedFile → Bool
  are_dotless = all (λ file. all is_dotless file.lines)

  url_problems-dotless :
      (files : List TrackedFile) → are_dotless files ≡ true → url_problems same_letter files ≡ []
  unfolding url_problems
  url_problems-dotless [] d = refl
  url_problems-dotless (file ∷ files) d =
      let (here, others) = and_true (all is_dotless file.lines) (are_dotless files) d in
      allowed-[] (is_allowed allowlist file.path) (scan_file same_letter file.lines)
        (url_problems same_letter files) (scan_file-dotless file.lines here)
        (url_problems-dotless files others)

  -- A host that begins with prod- is forbidden by the guard of check_env.py; where it has no dot in
  -- it, the hook that blocks URLs of production exits with 0 on files that name it, as long as
  -- nothing else in them has a dot.
  pub block_main-dotless :
      (rest : List ℕ) (file : TrackedFile) (files : List TrackedFile)
      → is_dotless (codes "prod-" ++ rest) ≡ true
      → are_dotless (file ∷ files) ≡ true
      → (host_violations (codes "prod-" ++ rest) prod_host_forbidden_substrings ≢ [])
        × (block_main same_letter
              (record file { lines = (codes "prod-" ++ rest) ∷ file.lines } ∷ files)
            ≡ 0)
  unfolding block_main
  block_main-dotless rest file files host others =
      let (here, rest_files) = and_true (all is_dotless file.lines) (are_dotless files) others in
      let named_files = record file { lines = (codes "prod-" ++ rest) ∷ file.lines } ∷ files in
      let dotless : are_dotless named_files ≡ true = rw (host, here, rest_files) refl in
      (prod-forbidden rest, rw (block_main, url_problems-dotless named_files dotless) refl)
