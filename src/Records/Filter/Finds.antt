-- ===== src/Records/Filter/Finds.antt =====
-- Which operator `findOperatorIndex` finds in a comparison of a name with a quoted literal.
use nodestack.Prelude.{
  ℕ, zero, suc, ◌+◌, ◌||◌, ◌==◌, Bool, true, false, not, List, [], ◌∷◌, ◌++◌, none, some, ◌&&◌, ◌≡◌,
  refl, ap, ◌∙◌, arith, all, &&-eq-true, length, starts_with,
}
use nodestack.Records.Codec.{escaped, encode}
use nodestack.Records.Filter.Literals.{is_word_char}
use nodestack.Records.Filter.Scan.{
  Seen, Scan, Operator, ne, ge, le, eq, gt, lt, not_like, like, operator_text, scan_step, is_top,
  is_char_escaped, quote_after, find_run, ends_longer,
}
use nodestack.Records.Filter.Quiet.{at_top, inside, scan_over, find_step, find-quiet, literal-Stays}

-- The characters of names, and the space.
abbrev pub is_plain : ℕ → Bool
is_plain c = is_word_char c || c == 32

abbrev pub spaces : ℕ → List ℕ
spaces zero = []
spaces (suc n) = 32 ∷ spaces n

pub spaces-is_plain : (n : ℕ) → all is_plain (spaces n) ≡ true
spaces-is_plain zero = refl
spaces-is_plain (suc n) = spaces-is_plain n

-- Such characters are quiet, for no operator begins with one.
unfoldable pub name_seen : List ℕ → Seen → Seen
name_seen [] seen = seen
name_seen (c ∷ cs) seen = name_seen cs (c ∷ seen)

pub word_step :
    (c : ℕ) (seen : Seen) → is_plain c ≡ true → scan_step c (at_top seen) ≡ at_top (c ∷ seen)
unfolding scan_step quote_after
word_step c seen h = ground arith

word_starts :
    (op : Operator) (c : ℕ) (rest : List ℕ)
    → is_plain c ≡ true
    → starts_with (c ∷ rest) (operator_text op) ≡ false
unfolding starts_with
word_starts ne c rest h = ground arith
word_starts ge c rest h = ground arith
word_starts le c rest h = ground arith
word_starts eq c rest h = ground arith
word_starts gt c rest h = ground arith
word_starts lt c rest h = ground arith
word_starts not_like c rest h = ground arith
word_starts like c rest h = ground arith

pub find-word :
    (op : Operator) (i : ℕ) (name rest : List ℕ) (seen : Seen)
    → all is_plain name ≡ true
    → find_run op i (name ++ rest) (at_top seen)
      ≡ find_run op (i + length name) rest (at_top (name_seen name seen))
unfolding find_run name_seen
find-word op i [] rest seen h = ap (λ j. find_run op j rest (at_top seen)) (omega arith)
find-word op i (c ∷ name) rest seen h =
    let (p, q) = &&-eq-true (is_plain c) (all is_plain name) h in
    let none_here : ((is_top c (at_top seen) && starts_with (c ∷ (name ++ rest)) (operator_text op))
          && not (ends_longer op seen))
        ≡ false =
      ground (arith, word_starts op c (name ++ rest) p) in
    rw (none_here) (
      rw (word_step c seen p) (
        find-word op (i + 1) name rest (c ∷ seen) q
        ∙ ap (λ j. find_run op j rest (at_top (name_seen name (c ∷ seen)))) (omega arith)))

pub opening :
    (seen : Seen)
    → is_char_escaped seen ≡ false
    → (scan_step 39 (at_top seen) ≡ inside (39 ∷ seen)) × (is_top 39 (at_top seen) ≡ false)
unfolding scan_step is_top quote_after
opening seen h = (rw h refl, rw h refl)

quote_only : (op : Operator) (i : ℕ) (s : Scan) → find_run op i (39 ∷ []) s ≡ none
unfolding find_run starts_with
quote_only ne i s = ground arith
quote_only ge i s = ground arith
quote_only le i s = ground arith
quote_only eq i s = ground arith
quote_only gt i s = ground arith
quote_only lt i s = ground arith
quote_only not_like i s = ground arith
quote_only like i s = ground arith

pub after_opening : (seen : Seen) → is_char_escaped (39 ∷ seen) ≡ false
unfolding is_char_escaped
after_opening seen = refl

-- No operator is found in a literal.
find-literal :
    (op : Operator) (i : ℕ) (s : List ℕ) (seen : Seen)
    → is_char_escaped seen ≡ false
    → find_run op i (encode (some s)) (at_top seen) ≡ none
unfolding encode
find-literal op i s seen h =
    let (o, t) = opening seen h in
    let (q, seen', e, r) = literal-Stays s (39 ∷ seen) (after_opening seen) in
    find_step op i 39 (escaped s ++ 39 ∷ []) (at_top seen) t
    ∙ rw o (
        find-quiet op (i + 1) (escaped s) (39 ∷ []) (inside (39 ∷ seen)) q
        ∙ quote_only op (i + 1 + length (escaped s)) (scan_over (escaped s) (inside (39 ∷ seen))))

plain_after : (c : ℕ) (seen : Seen) → is_plain c ≡ true → is_char_escaped (c ∷ seen) ≡ false
unfolding is_char_escaped
plain_after c seen h = ground arith

-- What follows a stretch of such characters is not escaped.
pub name_seen-is_char_escaped :
    (name : List ℕ) (seen : Seen)
    → all is_plain name ≡ true
    → is_char_escaped seen ≡ false
    → is_char_escaped (name_seen name seen) ≡ false
unfolding name_seen
name_seen-is_char_escaped [] seen h k = k
name_seen-is_char_escaped (c ∷ name) seen h k =
    let (p, q) = &&-eq-true (is_plain c) (all is_plain name) h in
    name_seen-is_char_escaped name (c ∷ seen) q (plain_after c seen p)

-- Nor in the spaces before it.
pub find-operand :
    (n : ℕ) (s : List ℕ) (op : Operator) (i : ℕ) (seen : Seen)
    → is_char_escaped seen ≡ false
    → find_run op i (spaces n ++ encode (some s)) (at_top seen) ≡ none
find-operand n s op i seen h =
    find-word op i (spaces n) (encode (some s)) seen (spaces-is_plain n)
    ∙ find-literal op (i + length (spaces n)) s (name_seen (spaces n) seen)
        (name_seen-is_char_escaped (spaces n) seen (spaces-is_plain n) h)

unfoldable pub op_seen : Operator → Seen → Seen
op_seen ne seen = 61 ∷ 33 ∷ seen
op_seen ge seen = 61 ∷ 62 ∷ seen
op_seen le seen = 61 ∷ 60 ∷ seen
op_seen eq seen = 61 ∷ seen
op_seen gt seen = 62 ∷ seen
op_seen lt seen = 60 ∷ seen
op_seen not_like seen = 126 ∷ 33 ∷ seen
op_seen like seen = 126 ∷ seen

pub op_after : (op : Operator) (seen : Seen) → is_char_escaped (op_seen op seen) ≡ false
unfolding op_seen is_char_escaped
op_after ne seen = refl
op_after ge seen = refl
op_after le seen = refl
op_after eq seen = refl
op_after gt seen = refl
op_after lt seen = refl
op_after not_like seen = refl
op_after like seen = refl

word_after :
    (op : Operator) (c : ℕ) (seen : Seen) → is_plain c ≡ true → ends_longer op (c ∷ seen) ≡ false
unfolding ends_longer
word_after ne c seen h = ground arith
word_after ge c seen h = ground arith
word_after le c seen h = ground arith
word_after eq c seen h = ground arith
word_after gt c seen h = ground arith
word_after lt c seen h = ground arith
word_after not_like c seen h = ground arith
word_after like c seen h = ground arith

pub name_after :
    (op : Operator) (name : List ℕ) (seen : Seen)
    → all is_plain name ≡ true
    → ends_longer op seen ≡ false
    → ends_longer op (name_seen name seen) ≡ false
unfolding name_seen
name_after op [] seen h k = k
name_after op (c ∷ name) seen h k =
    let (p, q) = &&-eq-true (is_plain c) (all is_plain name) h in
    name_after op name (c ∷ seen) q (word_after op c seen p)

pub no_seen : (op : Operator) → ends_longer op [] ≡ false
unfolding ends_longer
no_seen ne = refl
no_seen ge = refl
no_seen le = refl
no_seen eq = refl
no_seen gt = refl
no_seen lt = refl
no_seen not_like = refl
no_seen like = refl
