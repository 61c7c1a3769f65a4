-- ===== src/Proxy/Presets/Growth.antt =====
-- What one call of the search adds to what is found (proxy/presets.go).
use vibepit.Prelude.{
  ◌≡◌, ◌⊎◌, inl, inr, subst, true, none, some, List, Text, text_eq, text_eq_iff, arith, Bool-cases,
}
use vibepit.Proxy.Presets.{Preset, has, get, Search, visit, add_domains}
use vibepit.Proxy.Presets.Domains.{IsDistinct, add_domains-Adds}

module _ (presets : List Preset) (R : Text → Type 0) where
  -- A domain of a preset whose name is in `R`.
  pub record Source (d : Text) : Type 0 where
    pub name : Text
    pub preset : Preset
    pub allowed : R name
    pub known : get presets name ≡ some preset
    pub listed : has d preset.domains ≡ true

  -- The includes of the preset of this name are visited, and its domains found.
  abbrev pub IsDone : Search → Text → Type 0
  IsDone st x =
      (p : Preset)
      → get presets x ≡ some p
      → ((y : Text) → has y p.includes ≡ true → has y st.visited ≡ true)
        × ((d : Text) → has d p.domains ≡ true → has d st.domains ≡ true)

  -- Nothing is lost, every name that is new is done, and every domain that is new has a source.
  pub record Grows (st next : Search) : Type 0 where
    pub keeps : (x : Text) → has x st.visited ≡ true → has x next.visited ≡ true
    pub finds : (d : Text) → has d st.domains ≡ true → has d next.domains ≡ true
    pub done : (x : Text) → has x next.visited ≡ true → (has x st.visited ≡ true) ⊎ IsDone next x
    pub sound : (d : Text) → has d next.domains ≡ true → (has d st.domains ≡ true) ⊎ Source d
    pub distinct : IsDistinct st.domains → IsDistinct next.domains

  pub nothing_new : (st : Search) → Grows st st
  nothing_new st = record {
    keeps = λ x h. h;
    finds = λ d h. h;
    done = λ x h. inl h;
    sound = λ d h. inl h;
    distinct = λ h. h;
  }

  pub in_turn : (a b c : Search) → Grows a b → Grows b c → Grows a c
  in_turn a b c g h = record {
    keeps = λ x m. h.keeps x (g.keeps x m);
    finds = λ d m. h.finds d (g.finds d m);
    done = λ x m. elim (h.done x m) [
      | inr fresh ↦ inr fresh
      | inl old ↦ elim (g.done x old) [
        | inl older ↦ inl older
        | inr e ↦ inr (λ p q. (λ y n. h.keeps y ((e p q).0 y n), λ d n. h.finds d ((e p q).1 d n)))
      ]
    ];
    sound = λ d m. elim (h.sound d m) [ inr s ↦ inr s | inl old ↦ g.sound d old ];
    distinct = λ m. h.distinct (g.distinct m);
  }

  -- A name without a preset is only marked.
  pub visit-Grows : (st : Search) (name : Text) → get presets name ≡ none → Grows st (visit name st)
  unfolding has
  visit-Grows st name missing = record {
    keeps = λ x h. ground (arith, h);
    finds = λ d h. h;
    done = λ x h. elim (Bool-cases (text_eq name x)) [
      | inl e ↦ let same : name ≡ x = (text_eq_iff name x).0 e in inr (λ p q. cc (missing, same, q))
      | inr e ↦ inl (ground (arith, h, e))
    ];
    sound = λ d h. inl h;
    distinct = λ h. h;
  }

  -- A preset: its includes were searched after its name was marked, and its domains come last.
  pub preset-Grows :
      (st found : Search) (name : Text) (p : Preset)
      → get presets name ≡ some p
      → R name
      → Grows (visit name st) found
      → ((y : Text) → has y p.includes ≡ true → has y found.visited ≡ true)
      → Grows st (record found { domains = add_domains p.domains found.domains })
  unfolding has
  preset-Grows st found name p known allowed g included =
      let add = add_domains-Adds p.domains found.domains in
      record {
        keeps = λ x h. g.keeps x (ground (arith, h));
        finds = λ d h. add.kept d (g.finds d h);
        done = λ x h. elim (Bool-cases (text_eq name x)) [
          | inl e ↦
              let same : name ≡ x = (text_eq_iff name x).0 e in
              inr (λ q known_too.
                let eq : p ≡ q = cc (known, same, known_too) in
                subst
                  (λ (r : Preset).
                    ((y : Text) → has y r.includes ≡ true → has y found.visited ≡ true)
                    × ((d : Text)
                        → has d r.domains ≡ true
                        → has d (add_domains p.domains found.domains) ≡ true))
                  eq (included, add.added))
          | inr e ↦ elim (g.done x h) [
            | inl old ↦ inl (ground (arith, old, e))
            | inr d ↦ inr (λ q k. ((d q k).0, λ z n. add.kept z ((d q k).1 z n)))
          ]
        ];
        sound = λ d h. elim (add.only d h) [
          | inl old ↦ g.sound d old
          | inr new ↦
              inr
                (record { name = name; preset = p; allowed = allowed; known = known; listed = new })
        ];
        distinct = λ h. add.distinct (g.distinct h);
      }
