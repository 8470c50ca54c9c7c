-- ===== src/Tools/EnvFile/Agreement.antt =====
-- The two parsers of .env files of the repository agree.
use nimbus_commerce_platform.Common.{
  ℕ, ◌≡◌, refl, Bool, true, false, not, Option, none, some, List, [], ◌∷◌, arith, Bool-cases, inl,
  inr, if◌then◌else◌,
}
use nimbus_commerce_platform.Common.Text.{
  all, strip, strip_left, strip_right, same_text, same_text_sound, same_text_refl, strip-strip_left,
  strip_right-strip_right,
}
use nimbus_commerce_platform.Tools.EnvFile.{
  before, after, has_equals, is_empty, is_skipped, put, get, hook_line, script_line, add_entry,
  hook_lines, script_lines, missing_keys, required_keys, is_app_file, is_test_file, is_docker_file,
  app_keys, test_keys, docker_keys, hook_audit, script_audit, Env,
}

same_text_empty : (j : List ℕ) → is_empty j ≡ false → same_text [] j ≡ false
same_text_empty [] h = absurd (ground arith)
same_text_empty (c ∷ j) h = refl

abbrev is_named : List ℕ → Bool
is_named key = not (is_empty key)

all-if :
    (b : Bool) (xs ys : List (List ℕ))
    → all is_named xs ≡ true
    → all is_named ys ≡ true
    → all is_named (if b then xs else ys) ≡ true
all-if true xs ys h k = h
all-if false xs ys h k = k

pub get-put :
    (key value j : List ℕ) (env : Env)
    → get j (put key value env) ≡ (if same_text key j then some value else get j env)
get-put key value j [] = ground arith
get-put key value j ((k, v) ∷ env) = elim (Bool-cases (same_text k key)) [
  | inl h ↦ let e = same_text_sound k key h in rw e (ground (arith, same_text_refl key))
  | inr h ↦ elim (Bool-cases (same_text key j)) [
    | inl g ↦ let e = same_text_sound key j g in ground (arith, get-put key value j env)
    | inr g ↦ ground (arith, get-put key value j env)
  ]
]

module _ (is_space : ℕ → Bool) (equals : is_space b'=' ≡ false) (hash : is_space b'#' ≡ false) where
  before-strip_left :
      (line : List ℕ) → before (strip_left is_space line) ≡ strip_left is_space (before line)
  before-strip_left [] = refl
  before-strip_left (c ∷ line) = ground (arith, equals, before-strip_left line)

  after-strip_left : (line : List ℕ) → after (strip_left is_space line) ≡ after line
  after-strip_left [] = refl
  after-strip_left (c ∷ line) = ground (arith, equals, after-strip_left line)

  has_equals-strip_left : (line : List ℕ) → has_equals (strip_left is_space line) ≡ has_equals line
  has_equals-strip_left [] = refl
  has_equals-strip_left (c ∷ line) = ground (arith, equals, has_equals-strip_left line)

  has_equals-strip_right :
      (line : List ℕ) → has_equals (strip_right is_space line) ≡ has_equals line
  has_equals-strip_right [] = refl
  has_equals-strip_right (c ∷ line) = ground (arith, equals, has_equals-strip_right line)

  before-strip_right :
      (line : List ℕ) → has_equals line ≡ true → before (strip_right is_space line) ≡ before line
  before-strip_right [] h = absurd (ground arith)
  before-strip_right (c ∷ line) h =
      ground (arith, equals, before-strip_right line, has_equals-strip_right line)

  after-strip_right :
      (line : List ℕ)
      → has_equals line ≡ true
      → after (strip_right is_space line) ≡ strip_right is_space (after line)
  after-strip_right [] h = absurd (ground arith)
  after-strip_right (c ∷ line) h =
      ground (arith, equals, after-strip_right line, has_equals-strip_right line)

  is_skipped-strip_right :
      (line : List ℕ)
      → is_skipped (strip_left is_space (strip_right is_space line))
        ≡ is_skipped (strip_left is_space line)
  is_skipped-strip_right [] = refl
  is_skipped-strip_right (c ∷ line) = ground (arith, hash, is_skipped-strip_right line)

  strip-before :
      (line : List ℕ)
      → has_equals line ≡ true
      → strip is_space (before (strip is_space line)) ≡ strip is_space (before line)
  strip-before line h =
      let right = before-strip_right line h in
      ground (
        arith,
        before-strip_left (strip_right is_space line),
        strip-strip_left is_space (before line),
      )

  strip-after :
      (line : List ℕ)
      → has_equals line ≡ true
      → strip is_space (after (strip is_space line)) ≡ strip is_space (after line)
  strip-after line h =
      let right = after-strip_right line h in
      ground (
        arith,
        after-strip_left (strip_right is_space line),
        strip_right-strip_right is_space (after line),
      )

  -- An entry with an empty key counts as none.
  abbrev with_key : Option (List ℕ × List ℕ) → Option (List ℕ × List ℕ)
  with_key none = none
  with_key (some (key, value)) = if is_empty key then none else some (key, value)

  script_line-hook_line :
      (line : List ℕ) → script_line is_space line ≡ with_key (hook_line is_space line)
  unfolding script_line hook_line
  script_line-hook_line line =
      let skipped = is_skipped-strip_right line in
      let has = has_equals-strip_left (strip_right is_space line) in
      let has' = has_equals-strip_right line in
      elim (Bool-cases (has_equals line)) [
        | inl h ↦ ground (arith, strip-before line h, strip-after line h)
        | inr h ↦ ground arith
      ]

  add_entry_agree :
      (entry : Option (List ℕ × List ℕ)) (e e' : Env) (j : List ℕ)
      → is_empty j ≡ false
      → get j e ≡ get j e'
      → get j (add_entry is_space (with_key entry) e) ≡ get j (add_entry is_space entry e')
  add_entry_agree none e e' j n h = h
  add_entry_agree (some ([], value)) e e' j n h =
      ground (arith, get-put [] value j e', same_text_empty j n)
  add_entry_agree (some (c ∷ key, value)) e e' j n h =
      ground (arith, get-put (c ∷ key) value j e, get-put (c ∷ key) value j e')

  lines_agree :
      (lines : List (List ℕ)) (e e' : Env) (j : List ℕ)
      → is_empty j ≡ false
      → get j e ≡ get j e'
      → get j (script_lines is_space lines e) ≡ get j (hook_lines is_space lines e')
  unfolding script_lines hook_lines
  lines_agree [] e e' j n h = h
  lines_agree (line ∷ lines) e e' j n h =
      lines_agree lines _ _ j n
        (rw (script_line-hook_line line) (add_entry_agree (hook_line is_space line) e e' j n h))

  -- Where neither "=" nor "#" is a blank: the two parsers read the same value, or none, for every key
  -- that is not empty, from every file.
  pub parsers_agree :
      (lines : List (List ℕ)) (key : List ℕ)
      → is_empty key ≡ false
      → get key (script_lines is_space lines []) ≡ get key (hook_lines is_space lines [])
  parsers_agree lines key n = lines_agree lines [] [] key n refl

  missing_keys_agree :
      (keys : List (List ℕ)) (e e' : Env)
      → all is_named keys ≡ true
      → ((key : List ℕ) → is_empty key ≡ false → get key e ≡ get key e')
      → missing_keys keys e ≡ missing_keys keys e'
  missing_keys_agree [] e e' h same = refl
  missing_keys_agree (key ∷ keys) e e' h same =
      ground (arith, same key (ground arith), missing_keys_agree keys e e' (ground arith) same)

  required_keys_named : (name : List ℕ) → all is_named (required_keys name) ≡ true
  required_keys_named name =
      let docker = all-if (is_docker_file name) docker_keys [] refl refl in
      let tests =
        all-if (is_test_file name) test_keys (if is_docker_file name then docker_keys else []) refl
          docker in
      all-if (is_app_file name) app_keys
        (if is_test_file name then test_keys else if is_docker_file name then docker_keys else [])
        refl tests

  -- So the two audits report the same missing keys of every file, whatever its name.
  pub audits_agree :
      (name : List ℕ) (lines : List (List ℕ))
      → script_audit is_space name lines ≡ hook_audit is_space name lines
  unfolding script_audit hook_audit
  audits_agree name lines =
      missing_keys_agree (required_keys name) (script_lines is_space lines [])
        (hook_lines is_space lines []) (required_keys_named name) (parsers_agree lines)
