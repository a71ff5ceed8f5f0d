-- ===== src/Records/Scope.antt =====
-- src/records/RecordService.ts, `getList` and `exportRecords`: the filter of the list rule and the
-- client's filter become one, which src/records/QueryFilterParser.ts reads.
use nodestack.Prelude.{
  ℕ, zero, suc, ◌+◌, ◌<◌, true, false, List, [], ◌∷◌, ◌++◌, Option, none, some, ◌≡◌, refl, sym, ap,
  ◌∙◌, arith, is_blank, if◌then◌else◌, append_assoc, length, length-append, trim_codes,
  trim_codes_start, trim_codes_end, trim_codes-le, trim_codes-closed, codes,
}
use mathlib.Core.Option
use nodestack.Records.Filter.{
  Parsed, combine, convert_each, wrapped, where_clause, convert, parse_filter,
}
use nodestack.Records.Filter.Closed.{is_closed}
use nodestack.Records.Filter.Ending.{convert_total, some_of}
use nodestack.Records.Filter.Fuel.{convert-fuel}
use nodestack.Records.Filter.Groups.{
  group, both_groups, split-both_groups, escaping, split-escaping, convert-group, trim-group,
}
use nodestack.Records.Filter.Spaces.{trim_codes-append, trim_codes-spaces}

-- `filter && filter.trim() ? `(${rule}) && (${filter})` : rule`
unfoldable pub effective_filter : Option (List ℕ) → Option (List ℕ) → Option (List ℕ)
effective_filter none client = client
effective_filter (some []) client = client
effective_filter (some (c ∷ cs)) none = some (c ∷ cs)
effective_filter (some (c ∷ cs)) (some client) =
    if is_blank (trim_codes client) then some (c ∷ cs) else some (both_groups (c ∷ cs) client)

effective_filter-some :
    (rule client : List ℕ)
    → is_blank rule ≡ false
    → is_blank (trim_codes client) ≡ false
    → effective_filter (some rule) (some client) ≡ some (both_groups rule client)
unfolding effective_filter
effective_filter-some [] client h k = absurd (cc h)
effective_filter-some (c ∷ cs) client h k = rw k refl

each-two :
    (f : List ℕ → Option Parsed) (p q : List ℕ) (a b : Parsed)
    → f (trim_codes p) ≡ some a
    → f (trim_codes q) ≡ some b
    → convert_each f (p ∷ q ∷ []) ≡ some (a ∷ b ∷ [])
unfolding convert_each
each-two f p q a b e k = rw (e, k, convert_each) refl

length-group : (x : List ℕ) → length (group x) ≡ length x + 2
length-group x = omega (arith, length-append x (41 ∷ []))

length-both_groups : (x y : List ℕ) → length (both_groups x y) ≡ length x + length y + 8
length-both_groups x y =
    omega (arith, length-append x (41 ∷ 32 ∷ 38 ∷ 38 ∷ 32 ∷ group y), length-append y (41 ∷ []))

length-escaping : (a b : List ℕ) → length (escaping a b) ≡ length a + length b + 6
length-escaping a b = omega (arith, length-append a (41 ∷ 32 ∷ 124 ∷ 124 ∷ 32 ∷ 40 ∷ b))

trim-both_groups : (x y : List ℕ) → trim_codes (both_groups x y) ≡ both_groups x y
trim-both_groups x y =
    rw (sym (append_assoc x (41 ∷ 32 ∷ 38 ∷ 38 ∷ 32 ∷ 40 ∷ y) (41 ∷ [])))
      (trim_codes-closed 40 (x ++ 41 ∷ 32 ∷ 38 ∷ 38 ∷ 32 ∷ 40 ∷ y) 41 refl refl)

-- A text that is not blank is not empty.
filled : (x : List ℕ) → is_blank (trim_codes x) ≡ false → is_blank x ≡ false
unfolding trim_codes trim_codes_start trim_codes_end
filled [] h = cc h
filled (c ∷ x) h = refl

module _ (number_text : List ℕ → List ℕ) (allowed : Option (List (List ℕ)))
    (table_prefix : Option (List ℕ)) where
  abbrev converted : List ℕ → Option Parsed
  converted x =
      convert number_text allowed table_prefix (suc (length (trim_codes x))) (trim_codes x)

  converted_total : (x : List ℕ) → (r : Parsed) × (converted x ≡ some r)
  converted_total x = some_of (converted x) (
      convert_total number_text allowed table_prefix (suc (length (trim_codes x))) (trim_codes x)
        (omega arith))

  parse_filter-converted :
      (x : List ℕ) (r : Parsed)
      → is_blank (trim_codes x) ≡ false
      → converted x ≡ some r
      → parse_filter number_text allowed table_prefix (some x) ≡ some (where_clause r)
  unfolding parse_filter
  parse_filter-converted x r h e = rw h (ap (Option.map where_clause) e)

  convert-group_enough :
      (fuel : ℕ) (x : List ℕ) (r : Parsed)
      → is_closed x ≡ true
      → converted x ≡ some r
      → length x + 2 < fuel
      → convert number_text allowed table_prefix fuel (group x) ≡ some (wrapped r)
  convert-group_enough zero x r h e enough = absurd (omega arith)
  convert-group_enough (suc fuel) x r h e enough =
      convert-group number_text allowed table_prefix fuel x h
      ∙ ap (Option.map wrapped) (
          convert-fuel number_text allowed table_prefix fuel (suc (length (trim_codes x)))
            (trim_codes x) (omega (arith, trim_codes-le x)) (omega arith)
          ∙ e)

  convert-both_groups :
      (fuel : ℕ) (x y : List ℕ) (r c : Parsed)
      → is_closed x ≡ true
      → is_closed y ≡ true
      → converted x ≡ some r
      → converted y ≡ some c
      → length x + length y + 8 < fuel
      → convert number_text allowed table_prefix fuel (both_groups x y)
        ≡ some (combine (codes " AND ") (wrapped r ∷ wrapped c ∷ []))
  unfolding convert
  convert-both_groups zero x y r c hx hy ex ey enough = absurd (omega arith)
  convert-both_groups (suc fuel) x y r c hx hy ex ey enough =
      let (ors, ands) = split-both_groups x y hx hy in
      let first : convert number_text allowed table_prefix fuel (trim_codes (group x ++ 32 ∷ []))
          ≡ some (wrapped r) =
        ap (convert number_text allowed table_prefix fuel)
          (trim_codes-append (group x) 1 ∙ trim-group x)
        ∙ convert-group_enough fuel x r hx ex (omega arith) in
      let second : convert number_text allowed table_prefix fuel (trim_codes (32 ∷ group y))
          ≡ some (wrapped c) =
        ap (convert number_text allowed table_prefix fuel)
          (trim_codes-spaces 1 (group y) ∙ trim-group y)
        ∙ convert-group_enough fuel y c hy ey (omega arith) in
      rw ors (
        rw ands (
          ap (Option.map (combine (codes " AND "))) (
            each-two (convert number_text allowed table_prefix fuel) (group x ++ 32 ∷ [])
              (32 ∷ group y) (wrapped r) (wrapped c) first second)))

  parse_filter-both_groups :
      (x y : List ℕ) (p : Parsed)
      → convert number_text allowed table_prefix (suc (length (both_groups x y))) (both_groups x y)
        ≡ some p
      → parse_filter number_text allowed table_prefix (some (both_groups x y))
        ≡ some (where_clause p)
  unfolding parse_filter
  parse_filter-both_groups x y p e = rw (trim-both_groups x y) (ap (Option.map where_clause) e)

  -- If the quotes and parentheses of the rule's filter and of the client's filter are closed, and
  -- neither is blank, a list is restricted by both: the clause of the one, in parentheses, AND that of
  -- the other.
  pub effective_filter-both :
      (rule client : List ℕ)
      → is_closed rule ≡ true
      → is_closed client ≡ true
      → is_blank (trim_codes rule) ≡ false
      → is_blank (trim_codes client) ≡ false
      → (r c : Parsed) × (parse_filter number_text allowed table_prefix (some rule)
          ≡ some (where_clause r))
        × (parse_filter number_text allowed table_prefix (some client) ≡ some (where_clause c))
        × (parse_filter number_text allowed table_prefix
              (effective_filter (some rule) (some client))
            ≡ some (where_clause (combine (codes " AND ") (wrapped r ∷ wrapped c ∷ []))))
  effective_filter-both rule client hr hc br bc =
      let (r, er) = converted_total rule in
      let (c, ec) = converted_total client in
      (
        r,
        c,
        parse_filter-converted rule r br er,
        parse_filter-converted client c bc ec,
        ap (parse_filter number_text allowed table_prefix)
              (effective_filter-some rule client (filled rule br) bc)
            ∙ parse_filter-both_groups rule client _ (
                convert-both_groups (suc (length (both_groups rule client))) rule client r c hr hc
                  er ec (omega (arith, length-both_groups rule client))),
      )

  -- If the client's filter closes a parenthesis that it did not open, as `a) || (b` does, a list is
  -- not restricted by the rule: its clause is that of the rule AND that of `a`, OR that of `b`. The
  -- quotes and parentheses of the rule, of `a` and of `b` are closed, and none of them is blank.
  pub effective_filter-escapes :
      (rule a b : List ℕ)
      → is_closed rule ≡ true
      → is_closed a ≡ true
      → is_closed b ≡ true
      → is_blank (trim_codes rule) ≡ false
      → is_blank (trim_codes a) ≡ false
      → is_blank (trim_codes b) ≡ false
      → is_blank (trim_codes (escaping a b)) ≡ false
      → (r c d : Parsed) × (parse_filter number_text allowed table_prefix (some rule)
          ≡ some (where_clause r))
        × (parse_filter number_text allowed table_prefix (some a) ≡ some (where_clause c))
        × (parse_filter number_text allowed table_prefix (some b) ≡ some (where_clause d))
        × (parse_filter number_text allowed table_prefix
              (effective_filter (some rule) (some (escaping a b)))
            ≡ some (
                where_clause (
                  combine
                    (codes " OR ")
                    (combine (codes " AND ") (wrapped r ∷ wrapped c ∷ []) ∷ wrapped d ∷ []))))
  unfolding convert
  effective_filter-escapes rule a b hr ha hb br ba bb be =
      let (r, er) = converted_total rule in
      let (c, ec) = converted_total a in
      let (d, ed) = converted_total b in
      let fuel = length (both_groups rule (escaping a b)) in
      let long = length-both_groups rule (escaping a b) in
      let call = convert number_text allowed table_prefix fuel in
      let first : call (trim_codes (both_groups rule a ++ 32 ∷ []))
          ≡ some (combine (codes " AND ") (wrapped r ∷ wrapped c ∷ [])) =
        ap call (trim_codes-append (both_groups rule a) 1 ∙ trim-both_groups rule a)
        ∙ convert-both_groups fuel rule a r c hr ha er ec
            (omega (arith, long, length-escaping a b)) in
      let second : call (trim_codes (32 ∷ group b)) ≡ some (wrapped d) =
        ap call (trim_codes-spaces 1 (group b) ∙ trim-group b)
        ∙ convert-group_enough fuel b d hb ed (omega (arith, long, length-escaping a b)) in
      (
        r,
        c,
        d,
        parse_filter-converted rule r br er,
        parse_filter-converted a c ba ec,
        parse_filter-converted b d bb ed,
        ap (parse_filter number_text allowed table_prefix)
              (effective_filter-some rule (escaping a b) (filled rule br) be)
            ∙ parse_filter-both_groups rule (escaping a b) _ (
                rw (split-escaping rule a b hr ha hb) (
                  ap (Option.map (combine (codes " OR "))) (
                    each-two call (both_groups rule a ++ 32 ∷ []) (32 ∷ group b) _ (wrapped d) first
                      second))),
      )
