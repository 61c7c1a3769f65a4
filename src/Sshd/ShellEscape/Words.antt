-- ===== src/Sshd/ShellEscape/Words.antt =====
-- A shell reads a quoted argument back as itself (sshd/shell_escape.go).
use vibepit.Prelude.{
  ℕ, ◌≡◌, ◌==◌, refl, ap, sym, true, false, Option, none, some, [], ◌∷◌, ◌++◌, Text, codes,
  contains_byte, All, subst, is_empty, is_empty_iff, if◌then◌else◌, arith, inl, inr, Bool-cases,
}
use vibepit.Sshd.ShellEscape.{quote, backslash, is_safe, all_safe, escape_quotes, shell_escape}

-- How a shell reads a word: outside quotes, inside single quotes, or after a backslash.
pub data Mode : Type 0 where
  plain quoted escaped : Mode

abbrev prepend : ℕ → Option Text → Option Text
prepend c none = none
prepend c (some s) = some (c ∷ s)

-- The bytes that are special to a shell outside quotes: blanks, separators, redirections, quotes,
-- expansions, patterns, comments, history and groups.
abbrev pub special_bytes : Text
special_bytes = 9 ∷ 10 ∷ 13 ∷ codes " !\"#$%&'()*;<>?[\\]^`{|}~"

-- The word that a text spells; `none` for a text with a special byte outside quotes, or with a quote
-- that is not closed.
unfoldable pub read_word : Mode → Text → Option Text
read_word plain [] = some []
read_word quoted [] = none
read_word escaped [] = none
read_word plain (c ∷ s) =
    if c == quote
    then read_word quoted s
    else if c == backslash
    then read_word escaped s
    else if contains_byte c special_bytes
    then none
    else prepend c (read_word plain s)
read_word quoted (c ∷ s) = if c == quote then read_word plain s else prepend c (read_word quoted s)
read_word escaped (c ∷ s) = prepend c (read_word plain s)

safe_apart :
    (c : ℕ) (ks : Text)
    → is_safe c ≡ true
    → All (λ k. is_safe k ≡ false) ks
    → contains_byte c ks ≡ false
unfolding contains_byte
safe_apart c [] h a = refl
safe_apart c (k ∷ ks) h a =
    let rest = safe_apart c ks h a.1 in
    elim (Bool-cases (k == c)) [
      | inl e ↦
          let same : k ≡ c = ground (arith, e) in
          absurd (let bad = subst (λ x. is_safe x ≡ false) same a.0 in cc (h, bad))
      | inr e ↦ rw (e, rest) refl
    ]

specials_unsafe : All (λ k. is_safe k ≡ false) special_bytes
unfolding is_safe
specials_unsafe = (
  refl,
  (
    refl,
    (
      refl,
      (
        refl,
        (
          refl,
          (
            refl,
            (
              refl,
              (
                refl,
                (
                  refl,
                  (
                    refl,
                    (
                      refl,
                      (
                        refl,
                        (
                          refl,
                          (
                            refl,
                            (
                              refl,
                              (
                                refl,
                                (
                                  refl,
                                  (
                                    refl,
                                    (
                                      refl,
                                      (
                                        refl,
                                        (refl, (refl, (refl, (refl, (refl, (refl, (refl, tt))))))),
                                      ),
                                    ),
                                  ),
                                ),
                              ),
                            ),
                          ),
                        ),
                      ),
                    ),
                  ),
                ),
              ),
            ),
          ),
        ),
      ),
    ),
  ),
)

read_safe : (s : Text) → all_safe s ≡ true → read_word plain s ≡ some s
unfolding read_word all_safe
read_safe [] h = refl
read_safe (c ∷ s) h = elim (Bool-cases (is_safe c)) [
  | inl e ↦
      let no_quote : (c == quote) ≡ false = unfold is_safe in ground (arith, e) in
      let no_backslash : (c == backslash) ≡ false = unfold is_safe in ground (arith, e) in
      let usual = safe_apart c special_bytes e specials_unsafe in
      let rest = read_safe s (ground (arith, h, e)) in rw (no_quote, no_backslash, usual, rest) refl
  | inr e ↦ absurd (ground (arith, h, e))
]

read_quoted : (s : Text) → read_word quoted (escape_quotes s ++ quote ∷ []) ≡ some s
unfolding read_word escape_quotes
read_quoted [] = refl
read_quoted (c ∷ s) =
    let rest = read_quoted s in
    elim (Bool-cases (c == quote)) [
      | inl e ↦
          let same : c ≡ quote = ground (arith, e) in
          rw (e, rest) (ap (λ d. some (d ∷ s)) (sym same))
      | inr e ↦ rw (e, e, rest) refl
    ]

-- A shell reads the quoted form of any text as one word, which is the text: outside quotes it has no
-- byte that is special to the shell, and its quotes are closed.
pub read_word-shell_escape : (s : Text) → read_word plain (shell_escape s) ≡ some s
unfolding shell_escape
read_word-shell_escape s = elim (Bool-cases (is_empty s)) [
  | inl e ↦
      let nil : s ≡ [] = (is_empty_iff s).0 e in
      rw nil (unfold is_empty in unfold read_word in refl)
  | inr e ↦ elim (Bool-cases (all_safe s)) [
    | inl f ↦ rw (e, f) (read_safe s f)
    | inr f ↦ rw (e, f) (unfold read_word in read_quoted s)
  ]
]
