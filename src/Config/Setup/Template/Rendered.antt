-- ===== src/Config/Setup/Template/Rendered.antt =====
-- The lines of the configuration file, and the fill of a commented section among lines
-- (config/setup.go).
use vibepit.Prelude.{
  All-map, ℕ, ◌≡◌, refl, ap, sym, ◌∙◌, Bool, true, false, some, List, [], ◌∷◌, ◌++◌, map,
  append-nil, append_assoc, Text, codes, length, drop, split, ◌==◌, All, All-append, &&_iff, &&_iff,
  not, ◌&&◌, arith, text_eq, drop-append_length,
}
use vibepit.Prelude.Lines.{
  newline, has_prefix, trim_left, trim_right, concat, join, join_rest, ended, join-front,
}
use vibepit.Config.Setup.{item, format_value}
use vibepit.Config.Setup.Append.{
  comment_text, is_commented_header, find_header, entry_run, replace_commented, replace_lines,
}
use vibepit.Config.Setup.Places.{replaced, replaced-around}
use vibepit.Config.Setup.Template.{
  config_header, item_lines, presets_list, presets_section, list_entries, list_section,
  project_config, http_comment, dns_comment, http_examples, dns_examples,
}

-- A line of a file.
abbrev pub IsLine : Text → Type 0
IsLine l = All (λ c. (c == newline) ≡ false) l

abbrev pub nl : Text
nl = newline ∷ []

split-line :
    (l rest : Text) → IsLine l → split newline (l ++ newline ∷ rest) ≡ l ∷ split newline rest
unfolding split
split-line [] rest h = refl
split-line (c ∷ l) rest h = rw (h.0, split-line l rest h.1) refl

split-ended : (ls : List Text) → All IsLine ls → split newline (ended nl ls) ≡ ls ++ [] ∷ []
unfolding split ended
split-ended [] h = refl
split-ended (l ∷ ls) h =
    ap (split newline) (append_assoc l nl (ended nl ls))
    ∙ split-line l (ended nl ls) h.0
    ∙ ap (λ u. l ∷ u) (split-ended ls h.1)

join-ended : (ls : List Text) → join nl (ls ++ [] ∷ []) ≡ ended nl ls
unfolding join join_rest
join-ended ls = join-front nl ls [] [] ∙ append-nil (ended nl ls)

ended-append : (ls ms : List Text) → ended nl (ls ++ ms) ≡ ended nl ls ++ ended nl ms
unfolding ended
ended-append [] ms = refl
ended-append (l ∷ ls) ms = simp (ended-append ls ms, append_assoc)

abbrev pub IsOther : Text → Text → Type 0
IsOther key l = is_commented_header key l ≡ false

find_header_first :
    (key : Text) (above : List Text) (l : Text) (below : List Text)
    → All (IsOther key) above
    → is_commented_header key l ≡ true
    → find_header key (above ++ l ∷ below) ≡ some (length above)
unfolding find_header
find_header_first key [] l below h e = rw e refl
find_header_first key (a ∷ above) l below h e =
    rw (h.0, find_header_first key above l below h.1 e) refl

replace_lines_found :
    (quote : Text → Text) (key : Text) (added lines : List Text) (i : ℕ)
    → find_header key lines ≡ some i
    → replace_lines quote lines key added
      ≡ some (join nl (replaced lines i ((key ++ codes ":") ∷ map (item quote (codes "  ")) added)))
unfolding replace_lines
replace_lines_found quote key added lines i e = rw (e, replace_lines) refl

-- A placeholder of lines that the file has nowhere else is filled.
pub replace_commented_fills :
    (quote : Text → Text) (key : Text) (above : List Text) (l : Text) (examples below : List Text)
    (added : List Text)
    → All IsLine (above ++ l ∷ (examples ++ below))
    → All (IsOther key) above
    → is_commented_header key l ≡ true
    → entry_run (examples ++ (below ++ [] ∷ [])) ≡ length examples
    → replace_commented quote (ended nl (above ++ l ∷ (examples ++ below))) key added
      ≡ some
          (ended nl (above ++ ((key ++ codes ":") ∷ map (item quote (codes "  ")) added) ++ below))
unfolding replace_commented
replace_commented_fills quote key above l examples below added lines others header run =
    let rest = examples ++ (below ++ [] ∷ []) in
    let new = (key ++ codes ":") ∷ map (item quote (codes "  ")) added in
    let cut : split newline (ended nl (above ++ l ∷ (examples ++ below))) ≡ above ++ l ∷ rest =
      split-ended (above ++ l ∷ (examples ++ below)) lines
      ∙ append_assoc above (l ∷ (examples ++ below)) ([] ∷ [])
      ∙ ap (λ u. above ++ l ∷ u) (append_assoc examples below ([] ∷ [])) in
    let filled : replaced (above ++ l ∷ rest) (length above) new
        ≡ above ++ new ++ below ++ [] ∷ [] =
      replaced-around above l rest new
      ∙ ap (λ n. above ++ new ++ drop n rest) run
      ∙ ap (λ u. above ++ new ++ u) (drop-append_length examples (below ++ [] ∷ []))
      ∙ sym (append_assoc (above ++ new) below ([] ∷ [])) in
    ap (λ ls. replace_lines quote ls key added) cut
    ∙ replace_lines_found quote key added (above ++ l ∷ rest) (length above)
        (find_header_first key above l rest others header)
    ∙ ap some (ap (join nl) filled ∙ join-ended (above ++ new ++ below))

dashed-IsOther : (key d : Text) → IsOther key (codes "  - " ++ d)
unfolding is_commented_header comment_text trim_left trim_right has_prefix text_eq
dashed-IsOther key d = ground arith

abbrev pub IsPlain : (Text → Text) → List Text → Type 0
IsPlain quote = All (λ d. IsLine (format_value quote d))

item_lines-ended :
    (prefix : Text) (items : List Text)
    → item_lines prefix items ≡ ended nl (map (λ d. prefix ++ d) items)
unfolding concat ended
item_lines-ended prefix [] = refl
item_lines-ended prefix (d ∷ ds) = simp (item_lines-ended prefix ds, append_assoc)

pub map-IsLine :
    (prefix : Text) (items : List Text)
    → IsLine prefix
    → All IsLine items
    → All IsLine (map (λ d. prefix ++ d) items)
map-IsLine prefix [] p h = tt
map-IsLine prefix (d ∷ ds) p h =
    (All-append (λ c. (c == newline) ≡ false) prefix d p h.0, map-IsLine prefix ds p h.1)

pub dashed_others :
    (key : Text) (items : List Text) → All (IsOther key) (map (λ d. codes "  - " ++ d) items)
dashed_others key [] = tt
dashed_others key (d ∷ ds) = (dashed-IsOther key d, dashed_others key ds)

-- the lines of the sections
unfoldable pub header_lines : List Text
header_lines =
    codes "# Vibepit network config for this project."
    ∷ codes "# All internet access from the sandbox container is filtered through"
    ∷ codes "# a proxy that only allows domains listed here."
    ∷ codes "#"
    ∷ codes "# Docs: https://github.com/bernd/vibepit"
    ∷ []
    ∷ []

unfoldable pub intro_lines : List Text
intro_lines =
    codes "# Presets bundle common domains for a language ecosystem."
    ∷ codes "# Use 'vibepit --reconfigure' to change presets interactively."
    ∷ codes "# Available: default, anthropic, vcs-github, vcs-other, containers,"
    ∷ codes "# cloud, pkg-node, pkg-python, pkg-ruby, pkg-rust, pkg-go, pkg-jvm,"
    ∷ codes "# pkg-others, linux-distros, devtools, monitoring, cdn, schema, mcp"
    ∷ []

config_header-ended : config_header ≡ ended nl header_lines
unfolding config_header ended header_lines
config_header-ended = refl

abbrev pub preset_lines : List Text → List Text
preset_lines [] = codes "# presets:" ∷ codes "#   - default" ∷ codes "#   - pkg-go" ∷ []
preset_lines (p ∷ ps) = codes "presets:" ∷ map (λ d. codes "  - " ++ d) (p ∷ ps)

abbrev pub entry_lines : (Text → Text) → Text → List Text → List Text → List Text
entry_lines quote key [] examples =
    (codes "# " ++ key ++ codes ":") ∷ map (λ d. codes "#   - " ++ d) examples
entry_lines quote key (d ∷ ds) examples =
    (key ++ codes ":") ∷ map (λ d. codes "  - " ++ d) (map (format_value quote) (d ∷ ds))

-- the lines before those of the entries of allow-http
abbrev pub front : List Text → List Text
front presets = header_lines ++ (intro_lines ++ (preset_lines presets ++ ([] ∷ http_comment ∷ [])))

presets_section-ended :
    (presets : List Text) → presets_section presets ≡ ended nl intro_lines ++ presets_list presets
unfolding presets_section ended intro_lines
presets_section-ended presets = refl

presets_list-ended : (presets : List Text) → presets_list presets ≡ ended nl (preset_lines presets)
unfolding presets_list ended
presets_list-ended [] = refl
presets_list-ended (p ∷ ps) =
    ap (λ u. codes "presets:\n" ++ u) (item_lines-ended (codes "  - ") (p ∷ ps))

list_entries-ended :
    (quote : Text → Text) (key : Text) (entries examples : List Text)
    → list_entries quote key entries examples ≡ ended nl (entry_lines quote key entries examples)
unfolding list_entries ended
list_entries-ended quote key [] examples =
    simp (item_lines-ended (codes "#   - ") examples, append_assoc)
list_entries-ended quote key (d ∷ ds) examples =
    simp (item_lines-ended (codes "  - ") (map (format_value quote) (d ∷ ds)), append_assoc)

list_section-ended :
    (quote : Text → Text) (comment key : Text) (entries examples : List Text)
    → list_section quote comment key entries examples
      ≡ ended nl ([] ∷ comment ∷ entry_lines quote key entries examples)
unfolding list_section ended
list_section-ended quote comment key entries examples =
    simp (list_entries-ended quote key entries examples, append_assoc)

pub project_config-ended :
    (quote : Text → Text) (presets http dns : List Text)
    → project_config quote presets http dns
      ≡ ended nl (
          front presets
          ++ (entry_lines quote (codes "allow-http") http http_examples
              ++ ([] ∷ dns_comment ∷ entry_lines quote (codes "allow-dns") dns dns_examples)))
unfolding project_config ended
project_config-ended quote presets http dns = simp (
  config_header-ended,
  presets_section-ended presets,
  presets_list-ended presets,
  list_section-ended quote http_comment (codes "allow-http") http http_examples,
  list_section-ended quote dns_comment (codes "allow-dns") dns dns_examples,
  ended-append,
  append_assoc,
)

unfoldable pub every {ℓ} : {A : Type ℓ} → (A → Bool) → List A → Bool
every p [] = true
every p (x ∷ xs) = p x && every p xs

every-All {ℓ} :
    {A : Type ℓ} (p : A → Bool) (xs : List A) → every p xs ≡ true → All (λ x. p x ≡ true) xs
unfolding every
every-All p [] h = tt
every-All p (x ∷ xs) h =
    let both = (&&_iff (p x) (every p xs)).0 h in (both.0, every-All p xs both.1)

abbrev pub is_line : Text → Bool
is_line = every (λ c. not (c == newline))

-- Lines that are known are checked by a run.
pub known-IsLine : (ls : List Text) → every is_line ls ≡ true → All IsLine ls
known-IsLine ls h =
    All-map (λ l. is_line l ≡ true) IsLine ls
      (λ l e.
        All-map (λ c. not (c == newline) ≡ true) (λ c. (c == newline) ≡ false) l
          (λ c q. ground arith) (every-All (λ c. not (c == newline)) l e))
      (every-All is_line ls h)

pub known_others :
    (key : Text) (ls : List Text)
    → every (λ l. not (is_commented_header key l)) ls ≡ true
    → All (IsOther key) ls
known_others key ls h =
    All-map (λ l. not (is_commented_header key l) ≡ true) (IsOther key) ls (λ l q. ground arith)
      (every-All (λ l. not (is_commented_header key l)) ls h)

pub header-IsLine : All IsLine header_lines
unfolding header_lines every
header-IsLine = known-IsLine header_lines refl

pub intro-IsLine : All IsLine intro_lines
unfolding intro_lines every
intro-IsLine = known-IsLine intro_lines refl
