-- ===== src/CaseConvert/Words.antt =====
-- Texts that are words with one delimiter between them.
use metrique.Prelude.{
  ℕ, ◌≡◌, ◌≢◌, refl, sym, ap, ◌∙◌, false, List, [], ◌∷◌, ◌++◌, append_assoc, append-nil, All,
  All-append,
}
use metrique.CaseConvert.{is_empty}

-- A text without a character.
abbrev pub Lacks : ℕ → List ℕ → Type 0
Lacks d cs = All (λ c. c ≢ d) cs

abbrev pub IsWord : ℕ → List ℕ → Type 0
IsWord d cs = (is_empty cs ≡ false) × Lacks d cs

-- Words joined, and words with a delimiter after each.
abbrev pub glued : List (List ℕ) → List ℕ
glued [] = []
glued (w ∷ ws) = w ++ glued ws

abbrev pub delimit : ℕ → List (List ℕ) → List ℕ
delimit d [] = []
delimit d (w ∷ ws) = w ++ (d ∷ delimit d ws)

-- A text is words with a delimiter between each two of them, and without the delimiters it is
-- `letters`.
pub record Joined (d : ℕ) (letters out : List ℕ) : Type 0 where
  pub before : List (List ℕ)
  pub last : List ℕ
  pub words : All (IsWord d) before
  pub last_word : IsWord d last
  pub text : out ≡ delimit d before ++ last
  pub without : glued before ++ last ≡ letters

delimit-append :
    (d : ℕ) (ws : List (List ℕ)) (w : List ℕ)
    → delimit d (ws ++ w ∷ []) ≡ delimit d ws ++ (w ++ d ∷ [])
delimit-append d [] w = refl
delimit-append d (v ∷ ws) w =
    ap (λ cs. v ++ (d ∷ cs)) (delimit-append d ws w)
    ∙ sym (append_assoc v (d ∷ delimit d ws) (w ++ d ∷ []))

glued-append : (ws : List (List ℕ)) (w : List ℕ) → glued (ws ++ w ∷ []) ≡ glued ws ++ w
glued-append [] w = append-nil w
glued-append (v ∷ ws) w = ap (λ cs. v ++ cs) (glued-append ws w) ∙ sym (append_assoc v (glued ws) w)

is_empty-append : (xs ys : List ℕ) → is_empty xs ≡ false → is_empty (xs ++ ys) ≡ false
is_empty-append [] ys h = cc
is_empty-append (x ∷ xs) ys h = refl

-- A text is longer by a word at its end, and by a delimiter and a word.
module _ (d : ℕ) (letters out w : List ℕ) (j : Joined d letters out) (is_word : IsWord d w) where
  pub longer : Joined d (letters ++ w) (out ++ w)
  longer = record {
    before = j.before;
    last = j.last ++ w;
    words = j.words;
    last_word =
        (is_empty-append j.last w j.last_word.0, All-append _ j.last w j.last_word.1 is_word.1);
    text = ap (λ cs. cs ++ w) j.text ∙ append_assoc (delimit d j.before) j.last w;
    without = sym (append_assoc (glued j.before) j.last w) ∙ ap (λ cs. cs ++ w) j.without;
  }

  pub one_more : Joined d (letters ++ w) (out ++ d ∷ [] ++ w)
  one_more = record {
    before = j.before ++ j.last ∷ [];
    last = w;
    words = All-append _ j.before (j.last ∷ []) j.words (j.last_word, tt);
    last_word = is_word;
    text =
        ap (λ cs. cs ++ d ∷ [] ++ w) j.text
        ∙ ap (λ cs. cs ++ w)
            (append_assoc (delimit d j.before) j.last (d ∷ [])
              ∙ sym (delimit-append d j.before j.last));
    without = ap (λ cs. cs ++ w) (glued-append j.before j.last ∙ j.without);
  }

pub one_word : (d : ℕ) (w : List ℕ) → IsWord d w → Joined d w w
one_word d w h = record {
  before = [];
  last = w;
  words = tt;
  last_word = h;
  text = refl;
  without = refl;
}
