-- ===== src/Config/Setup/Template/Filled.antt =====
-- The placeholders of the configuration file are filled as the setup would fill them
-- (config/setup.go).
use vibepit.Prelude.{
  ◌≡◌, refl, ap, sym, ◌∙◌, false, some, List, [], ◌∷◌, ◌++◌, map, append-nil, append_assoc, Text,
  codes, All, All-append, ◌==◌, text_eq, is_empty,
}
use vibepit.Prelude.Lines.{newline, has_prefix, trim_left, trim_right, ended}
use vibepit.Config.Setup.{item, format_value}
use vibepit.Config.Setup.Append.{
  comment_text, is_commented_header, is_commented_entry, entry_run, replace_commented,
  append_missing,
}
use vibepit.Config.Setup.Template.{
  project_config, http_comment, dns_comment, http_examples, dns_examples,
}
use vibepit.Config.Setup.Template.Rendered.{
  IsLine, IsPlain, IsOther, nl, header_lines, intro_lines, preset_lines, entry_lines, front, every,
  known-IsLine, known_others, header-IsLine, intro-IsLine, map-IsLine, dashed_others,
  replace_commented_fills, project_config-ended,
}

formatted-IsLine :
    (quote : Text → Text) (ds : List Text)
    → IsPlain quote ds
    → All IsLine (map (format_value quote) ds)
formatted-IsLine quote [] h = tt
formatted-IsLine quote (d ∷ ds) h = (h.0, formatted-IsLine quote ds h.1)

items-dashed :
    (quote : Text → Text) (ds : List Text)
    → map (item quote (codes "  ")) ds ≡ map (λ d. codes "  - " ++ d) (map (format_value quote) ds)
unfolding item
items-dashed quote [] = refl
items-dashed quote (d ∷ ds) =
    ap (λ u. (codes "  - " ++ format_value quote d) ∷ u) (items-dashed quote ds)

abbrev pub http : Text
http = codes "allow-http"

abbrev pub dns : Text
dns = codes "allow-dns"

-- the lines that are the same in all files
abbrev fixed : List Text
fixed =
    codes "presets:"
    ∷ codes "# presets:"
    ∷ codes "#   - default"
    ∷ codes "#   - pkg-go"
    ∷ []
    ∷ http_comment
    ∷ dns_comment
    ∷ []

fixed-IsLine : All IsLine fixed
unfolding http_comment dns_comment every
fixed-IsLine = known-IsLine fixed refl

preset_lines-IsLine : (presets : List Text) → All IsLine presets → All IsLine (preset_lines presets)
unfolding every
preset_lines-IsLine [] h = known-IsLine (preset_lines []) refl
preset_lines-IsLine (p ∷ ps) h =
    (fixed-IsLine.0, map-IsLine (codes "  - ") (p ∷ ps) (refl, (refl, (refl, (refl, tt)))) h)

entry_lines-IsLine :
    (quote : Text → Text) (key : Text) (ds examples : List Text)
    → IsLine key
    → All IsLine examples
    → IsPlain quote ds
    → All IsLine (entry_lines quote key ds examples)
entry_lines-IsLine quote key [] examples k e h = (
  (refl, (refl, All-append (λ c. (c == newline) ≡ false) key (codes ":") k (refl, tt))),
  map-IsLine (codes "#   - ") examples (refl, (refl, (refl, (refl, (refl, (refl, tt)))))) e,
)
entry_lines-IsLine quote key (d ∷ ds) examples k e h = (
  All-append (λ c. (c == newline) ≡ false) key (codes ":") k (refl, tt),
  map-IsLine (codes "  - ") (map (format_value quote) (d ∷ ds)) (refl, (refl, (refl, (refl, tt))))
      (formatted-IsLine quote (d ∷ ds) h),
)

front-IsLine : (presets : List Text) → All IsLine presets → All IsLine (front presets)
front-IsLine presets h = All-append IsLine header_lines _ header-IsLine (
    All-append IsLine intro_lines _ intro-IsLine (
      All-append IsLine (preset_lines presets) ([] ∷ http_comment ∷ [])
        (preset_lines-IsLine presets h) (fixed-IsLine.1.1.1.1.0, (fixed-IsLine.1.1.1.1.1.0, tt))))

module _ (key : Text) (in_header : All (IsOther key) header_lines)
    (in_intro : All (IsOther key) intro_lines) (in_fixed : All (IsOther key) fixed) where
  preset_lines_others : (presets : List Text) → All (IsOther key) (preset_lines presets)
  preset_lines_others [] = (in_fixed.1.0, (in_fixed.1.1.0, (in_fixed.1.1.1.0, tt)))
  preset_lines_others (p ∷ ps) = (in_fixed.0, dashed_others key (p ∷ ps))

  front_others : (presets : List Text) → All (IsOther key) (front presets)
  front_others presets = All-append (IsOther key) header_lines _ in_header (
      All-append (IsOther key) intro_lines _ in_intro (
        All-append (IsOther key) (preset_lines presets) ([] ∷ http_comment ∷ [])
          (preset_lines_others presets) (in_fixed.1.1.1.1.0, (in_fixed.1.1.1.1.1.0, tt))))

front_others_http : (presets : List Text) → All (IsOther http) (front presets)
unfolding every is_commented_header comment_text has_prefix trim_left trim_right text_eq is_empty
    header_lines intro_lines http_comment dns_comment
front_others_http =
    front_others http (known_others http header_lines refl) (known_others http intro_lines refl)
      (known_others http fixed refl)

front_others_dns : (presets : List Text) → All (IsOther dns) (front presets)
unfolding every is_commented_header comment_text has_prefix trim_left trim_right text_eq is_empty
    header_lines intro_lines http_comment dns_comment
front_others_dns =
    front_others dns (known_others dns header_lines refl) (known_others dns intro_lines refl)
      (known_others dns fixed refl)

-- The lines of the entries of allow-http, and the comment of the section after them.
http_entries_others :
    (quote : Text → Text) (hs : List Text)
    → All (IsOther dns) (entry_lines quote http hs http_examples ++ ([] ∷ dns_comment ∷ []))
unfolding every is_commented_header comment_text has_prefix trim_left trim_right text_eq is_empty
    dns_comment
http_entries_others quote [] =
    known_others dns (entry_lines quote http [] http_examples ++ ([] ∷ dns_comment ∷ [])) refl
http_entries_others quote (h ∷ hs) =
    All-append (IsOther dns) (entry_lines quote http (h ∷ hs) http_examples) ([] ∷ dns_comment ∷ [])
      (refl, dashed_others dns (map (format_value quote) (h ∷ hs)))
      (known_others dns ([] ∷ dns_comment ∷ []) refl)

append_missing_found :
    (quote : Text → Text) (text key : Text) (added : List Text) (out : Text)
    → replace_commented quote text key added ≡ some out
    → append_missing quote text key added ≡ out
unfolding append_missing
append_missing_found quote text key added out e = rw (e, append_missing) refl

module _ (quote : Text → Text) (presets : List Text) (d : Text) (ds : List Text)
    (plain_presets : All IsLine presets) where
  -- the lines before those of the entries of allow-dns
  abbrev above : List Text → List Text
  above hs = front presets ++ (entry_lines quote http hs http_examples ++ ([] ∷ dns_comment ∷ []))

  above-IsLine : (hs : List Text) → IsPlain quote hs → All IsLine (above hs)
  unfolding every
  above-IsLine hs plain = All-append IsLine (front presets) _ (front-IsLine presets plain_presets) (
      All-append IsLine (entry_lines quote http hs http_examples) ([] ∷ dns_comment ∷ [])
        (entry_lines-IsLine quote http hs http_examples (known-IsLine (http ∷ []) refl).0
          (known-IsLine http_examples refl) plain)
        (tt, (fixed-IsLine.1.1.1.1.1.1.0, tt)))

  above-append :
      (hs rest : List Text)
      → above hs ++ rest
        ≡ front presets ++ (entry_lines quote http hs http_examples ++ ([] ∷ dns_comment ∷ rest))
  above-append hs rest =
      let entries = entry_lines quote http hs http_examples in
      append_assoc (front presets) (entries ++ ([] ∷ dns_comment ∷ [])) rest
      ∙ ap (λ u. front presets ++ u) (append_assoc entries ([] ∷ dns_comment ∷ []) rest)

  dns_new :
      (hs : List Text)
      → ended nl (above hs ++ ((dns ++ codes ":") ∷ map (item quote (codes "  ")) (d ∷ ds)) ++ [])
        ≡ project_config quote presets hs (d ∷ ds)
  dns_new hs =
      ap (ended nl) (
        append-nil _
        ∙ ap (λ u. above hs ++ ((dns ++ codes ":") ∷ u)) (items-dashed quote (d ∷ ds))
        ∙ above-append hs (entry_lines quote dns (d ∷ ds) dns_examples))
      ∙ sym (project_config-ended quote presets hs (d ∷ ds))

  fill_dns :
      (hs : List Text)
      → IsPlain quote hs
      → append_missing quote (project_config quote presets hs []) dns (d ∷ ds)
        ≡ project_config quote presets hs (d ∷ ds)
  unfolding every is_commented_header is_commented_entry entry_run comment_text has_prefix trim_left
      trim_right text_eq is_empty
  fill_dns hs plain =
      let l = codes "# allow-dns:" in
      let examples = codes "#   - internal.corp.example.com" ∷ [] in
      let filled =
        replace_commented_fills quote dns (above hs) l examples [] (d ∷ ds)
          (All-append IsLine (above hs) (l ∷ examples) (above-IsLine hs plain)
            (known-IsLine (l ∷ examples) refl))
          (All-append (IsOther dns) (front presets) _ (front_others_dns presets)
            (http_entries_others quote hs))
          refl refl in
      ap (λ t. append_missing quote t dns (d ∷ ds))
        (project_config-ended quote presets hs []
          ∙ ap (ended nl) (sym (above-append hs (l ∷ examples))))
      ∙ append_missing_found quote _ dns (d ∷ ds) _ filled
      ∙ dns_new hs

  http_new :
      (ns : List Text)
      → ended nl (
          front presets
          ++ ((http ++ codes ":") ∷ map (item quote (codes "  ")) (d ∷ ds))
          ++ ([] ∷ dns_comment ∷ entry_lines quote dns ns dns_examples))
        ≡ project_config quote presets (d ∷ ds) ns
  http_new ns =
      let below = [] ∷ dns_comment ∷ entry_lines quote dns ns dns_examples in
      ap (ended nl) (
        append_assoc (front presets) _ below
        ∙ ap (λ u. front presets ++ (((http ++ codes ":") ∷ u) ++ below))
            (items-dashed quote (d ∷ ds)))
      ∙ sym (project_config-ended quote presets (d ∷ ds) ns)

  fill_http :
      (ns : List Text)
      → IsPlain quote ns
      → append_missing quote (project_config quote presets [] ns) http (d ∷ ds)
        ≡ project_config quote presets (d ∷ ds) ns
  unfolding every is_commented_header is_commented_entry entry_run comment_text has_prefix trim_left
      trim_right text_eq is_empty
  fill_http ns plain =
      let below = [] ∷ dns_comment ∷ entry_lines quote dns ns dns_examples in
      let l = codes "# allow-http:" in
      let examples = codes "#   - api.openai.com:443" ∷ codes "#   - api.anthropic.com:443" ∷ [] in
      let lines : All IsLine below = (
        tt,
        (
          fixed-IsLine.1.1.1.1.1.1.0,
          entry_lines-IsLine quote dns ns dns_examples (known-IsLine (dns ∷ []) refl).0
              (known-IsLine dns_examples refl) plain,
        ),
      ) in
      let filled =
        replace_commented_fills quote http (front presets) l examples below (d ∷ ds)
          (All-append IsLine (front presets) (l ∷ (examples ++ below))
            (front-IsLine presets plain_presets)
            (All-append IsLine (l ∷ examples) below (known-IsLine (l ∷ examples) refl) lines))
          (front_others_http presets) refl refl in
      ap (λ t. append_missing quote t http (d ∷ ds)) (project_config-ended quote presets [] ns)
      ∙ append_missing_found quote _ http (d ∷ ds) _ filled
      ∙ http_new ns

  -- In the file that the setup writes, a list without entries is a commented section, and appending
  -- entries to it in place gives the file that the setup would write with these entries, if no
  -- preset and no entry of the other list has a newline.
  pub append_missing-project_config :
      (others : List Text)
      → IsPlain quote others
      → (append_missing quote (project_config quote presets others []) dns (d ∷ ds)
          ≡ project_config quote presets others (d ∷ ds))
        × (append_missing quote (project_config quote presets [] others) http (d ∷ ds)
            ≡ project_config quote presets (d ∷ ds) others)
  append_missing-project_config others plain = (fill_dns others plain, fill_http others plain)
