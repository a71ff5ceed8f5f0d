-- ===== src/Records/Filter/Spaces.antt =====
-- White space around the operator of a comparison, which `parseSingleComparison` trims.
use nodestack.Prelude.{
  ℕ, zero, suc, true, false, List, [], ◌∷◌, ◌++◌, ◌≡◌, refl, ap, ◌∙◌, arith, all, is_blank,
  is_space, if◌then◌else◌, trim_codes, trim_codes_start, trim_codes_end, trim_codes_end-solid, not,
  &&-eq-true,
}
use nodestack.Records.Filter.Literals.{is_word_char, is_word}
use nodestack.Records.Filter.Finds.{is_plain, spaces, spaces-is_plain}

trim_codes_end-spaces : (n : ℕ) → trim_codes_end (spaces n) ≡ []
unfolding trim_codes_end
trim_codes_end-spaces zero = refl
trim_codes_end-spaces (suc n) = rw (trim_codes_end-spaces n) refl

trim_codes_end-append : (s : List ℕ) (n : ℕ) → trim_codes_end (s ++ spaces n) ≡ trim_codes_end s
unfolding trim_codes_end
trim_codes_end-append [] n = trim_codes_end-spaces n
trim_codes_end-append (c ∷ s) n = rw (trim_codes_end-append s n) refl

pub trim_codes-append : (s : List ℕ) (n : ℕ) → trim_codes (s ++ spaces n) ≡ trim_codes s
unfolding trim_codes
trim_codes-append s n = ap trim_codes_start (trim_codes_end-append s n)

start-space :
    (rest : List ℕ)
    → trim_codes_start (if is_blank rest then [] else 32 ∷ rest) ≡ trim_codes_start rest
unfolding trim_codes_start
start-space [] = refl
start-space (c ∷ rest) = refl

pub trim_codes-spaces : (n : ℕ) (s : List ℕ) → trim_codes (spaces n ++ s) ≡ trim_codes s
unfolding trim_codes trim_codes_end
trim_codes-spaces zero s = refl
trim_codes-spaces (suc n) s = start-space (trim_codes_end (spaces n ++ s)) ∙ trim_codes-spaces n s

pub name-is_plain :
    (name : List ℕ) (n : ℕ) → all is_word_char name ≡ true → all is_plain (name ++ spaces n) ≡ true
name-is_plain [] n h = spaces-is_plain n
name-is_plain (c ∷ name) n h =
    let (p, q) = &&-eq-true (is_word_char c) (all is_word_char name) h in
    rw p (name-is_plain name n q)

append-ne-blank : (s w : List ℕ) → is_blank w ≡ false → is_blank (s ++ w) ≡ false
append-ne-blank [] w h = h
append-ne-blank (c ∷ s) w h = refl

trim_codes_end-append_solid :
    (s w : List ℕ)
    → all (λ c. not (is_space c)) w ≡ true
    → is_blank w ≡ false
    → trim_codes_end (s ++ w) ≡ s ++ w
unfolding trim_codes_end
trim_codes_end-append_solid [] w h b = trim_codes_end-solid w h
trim_codes_end-append_solid (c ∷ s) w h b =
    rw (trim_codes_end-append_solid s w h b) (rw (append-ne-blank s w b) (ground arith))

-- Nothing is trimmed between a character that is no white space and a text without any.
pub trim_codes-append_solid :
    (c : ℕ) (s w : List ℕ)
    → is_space c ≡ false
    → all (λ d. not (is_space d)) w ≡ true
    → is_blank w ≡ false
    → trim_codes (c ∷ (s ++ w)) ≡ c ∷ (s ++ w)
unfolding trim_codes trim_codes_start
trim_codes-append_solid c s w hc h b = rw (trim_codes_end-append_solid (c ∷ s) w h b) (rw hc refl)

pub word_solid : (c : ℕ) → is_word_char c ≡ true → is_space c ≡ false
word_solid c h = ground arith

pub words_solid :
    (name : List ℕ) → all is_word_char name ≡ true → all (λ c. not (is_space c)) name ≡ true
words_solid [] h = refl
words_solid (c ∷ name) h =
    let (p, q) = &&-eq-true (is_word_char c) (all is_word_char name) h in
    rw (word_solid c p) (words_solid name q)

pub all-of-word : (name : List ℕ) → is_word name ≡ true → all is_word_char name ≡ true
unfolding is_word
all-of-word name h = (&&-eq-true (not (is_blank name)) _ h).1
