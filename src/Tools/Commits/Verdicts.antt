-- ===== src/Tools/Commits/Verdicts.antt =====
-- Which messages the hook .pre-commit-hooks/conventional-commits.py lets through.
use nimbus_commerce_platform.Common.{
  ℕ, append-[], ◌≡◌, ◌≢◌, refl, true, false, not, Option, none, some, List, [], ◌∷◌, ◌++◌, arith,
  ◌≤◌, length, Option-cases, inl, inr, ◌==◌,
}
use nimbus_commerce_platform.Common.Text.{codes, all, starts_with, member}
use nimbus_commerce_platform.Tools.Commits.{
  Commit, is_type_char, match_commit, Rules, problems, check_subject, check_message,
  passes_unchanged, scope_forbidden, has_breaking_change, Problem, report, ends_with,
  type_not_allowed, bad_format, no_breaking_change, scope_not_allowed,
}
use nimbus_commerce_platform.Tools.Commits.Format.{
  IsWellFormed, render_ordinary, render_scope, render_body, match_commit_ordinary, is_word,
}

-- A word of letters and a mark do not begin a text of letters with another mark behind it.
starts_with-mark :
    (q p rest : List ℕ) (d : ℕ)
    → all is_type_char q ≡ true
    → all is_type_char p ≡ true
    → is_type_char d ≡ false
    → (d == b'!') ≡ false
    → starts_with (q ++ b'!' ∷ []) (p ++ d ∷ rest) ≡ false
starts_with-mark [] [] rest d a b c e = ground arith
starts_with-mark [] (x ∷ p) rest d a b c e = ground arith
starts_with-mark (y ∷ q) [] rest d a b c e = ground arith
starts_with-mark (y ∷ q) (x ∷ p) rest d a b c e = ground (arith, starts_with-mark q p rest d)

-- The first character behind the type of an ordinary message.
behind_type :
    (scope : Option (List ℕ)) (text : List ℕ)
    → (d : ℕ) × (rest : List ℕ) × (render_scope scope (b':' ∷ text) ≡ d ∷ rest)
      × (is_type_char d ≡ false)
      × ((d == b'!') ≡ false)
behind_type none text = (b':', text, refl, refl, refl)
behind_type (some scope) text = (b'(', _, refl, refl, refl)

begins_other :
    (p rest prefix : List ℕ) (x : ℕ)
    → is_type_char x ≡ false
    → is_word is_type_char p ≡ true
    → starts_with (x ∷ prefix) (p ++ rest) ≡ false
begins_other [] rest prefix x n h = absurd (ground arith)
begins_other (c ∷ p) rest prefix x n h = ground arith

module _ (r : Rules) where
  -- What is known of a message that is let through as a commit.
  pub record Accepted (c : Commit) : Type 0 where
    pub type_allowed : member c.commit_type r.types ≡ true
    pub scope_allowed : scope_forbidden r c.scope ≡ false
    pub subject_present : c.subject ≢ []
    pub subject_short : length c.subject ≤ 72
    pub subject_open : ends_with b'.' c.subject ≡ false
    pub breaking : has_breaking_change r c ≡ true

  check_subject-[] :
      (subject : List ℕ)
      → check_subject r subject ≡ []
      → (subject ≢ []) × (length subject ≤ 72) × (ends_with b'.' subject ≡ false)
  unfolding check_subject
  check_subject-[] [] h = absurd (ground arith)
  check_subject-[] (x ∷ text) h = (λ e. absurd (ground arith), ground arith, ground arith)

  problems-Accepted : (c : Commit) → problems r (some c) ≡ [] → Accepted c
  unfolding problems
  problems-Accepted c h =
      let last = report (not (has_breaking_change r c)) no_breaking_change in
      let second = report (scope_forbidden r c.scope) scope_not_allowed in
      let first = report (not (member c.commit_type r.types)) type_not_allowed in
      let (h1, e) = append-[] (first ++ second ++ check_subject r c.subject) last h in
      let (h2, d) = append-[] (first ++ second) (check_subject r c.subject) h1 in
      let (a, b) = append-[] first second h2 in
      let (present, short, unended) = check_subject-[] c.subject d in
      record {
        type_allowed = ground arith;
        scope_allowed = ground arith;
        subject_present = present;
        subject_short = short;
        subject_open = unended;
        breaking = ground arith;
      }

  abbrev status : List Problem → ℕ
  status [] = 0
  status (p ∷ ps) = 1

  check_message-status :
      (message : List ℕ)
      → passes_unchanged message ≡ false
      → message ≢ []
      → check_message r message ≡ status (problems r (match_commit message))
  unfolding check_message
  check_message-status [] p n = absurd (n refl)
  check_message-status (x ∷ message) p n = ground arith

  check_message-[] : check_message r [] ≡ 1
  unfolding check_message
  check_message-[] = refl

  problems-none : problems r none ≡ bad_format ∷ []
  unfolding problems
  problems-none = refl

  check_message_refused :
      (message : List ℕ)
      → passes_unchanged message ≡ false
      → match_commit message ≡ none
      → check_message r message ≡ 1
  check_message_refused [] p q = check_message-[]
  check_message_refused (x ∷ message) p q =
      ground
        (arith, check_message-status (x ∷ message) p (λ e. absurd (ground arith)), problems-none)

  -- A message that the hook lets through, and that is none of those that it passes unchanged, has the
  -- format, an allowed type, an allowed scope if it has one, a subject of 1 to 72 characters without
  -- a period at its end, and a body that speaks of a breaking change.
  check_message_accepts :
      (message : List ℕ)
      → check_message r message ≡ 0
      → passes_unchanged message ≡ false
      → (c : Commit) × (match_commit message ≡ some c) × Accepted c
  check_message_accepts [] h p = absurd (ground (arith, check_message-[]))
  check_message_accepts (x ∷ message) h p = elim (Option-cases (match_commit (x ∷ message))) [
    | inl q ↦ absurd (ground (arith, check_message_refused (x ∷ message) p q))
    | inr (c, q) ↦
        let s = check_message-status (x ∷ message) p (λ e. absurd (ground arith)) in
        (c, q, problems-Accepted c (ground arith))
  ]

  ordinary_unmarked :
      (q : List ℕ) (c : Commit)
      → all is_type_char q ≡ true
      → IsWellFormed c
      → starts_with (q ++ b'!' ∷ []) (render_ordinary c) ≡ false
  ordinary_unmarked q c a h =
      let (d, rest, e, no_letter, no_mark) =
        behind_type c.scope (b' ' ∷ (c.subject ++ render_body c.body)) in
      ground (arith, h.commit_type, starts_with-mark q c.commit_type rest d a)

  ordinary_unnamed :
      (p : List ℕ) (c : Commit) (x : ℕ)
      → is_type_char x ≡ false
      → IsWellFormed c
      → starts_with (x ∷ p) (render_ordinary c) ≡ false
  ordinary_unnamed p c x n h = begins_other c.commit_type _ p x n h.commit_type

  -- Every message of the documented form type(scope): subject, with or without a scope and a body,
  -- is refused: the "!" that marks a breaking change is not optional.
  pub check_message_ordinary :
      (c : Commit) → IsWellFormed c → check_message r (render_ordinary c) ≡ 1
  check_message_ordinary c h =
      let merge = ordinary_unnamed (codes "erge ") c b'M' refl h in
      let revert = ordinary_unnamed (codes "evert ") c b'R' refl h in
      let fixup = ordinary_unmarked (codes "fixup") c refl h in
      let squash = ordinary_unmarked (codes "squash") c refl h in
      check_message_refused (render_ordinary c) (ground arith) (match_commit_ordinary c h)
