-- ===== src/Records/Codec/Literals.antt =====
-- What `FilterCodec.encode` writes, `FilterCodec.decode` reads.
use nodestack.Prelude.{
  ℕ, false, List, [], ◌∷◌, ◌++◌, some, inl, inr, ◌==◌, ◌≡◌, refl, ap, ◌∙◌, arith, Bool-cases, ◌⊎◌,
  replace_all, replace_all-append, trim_codes-closed, last_is-closed, drop_last-closed,
}
use nodestack.Records.Codec.{escaped, encode, unescape, decode, is_quoted}

pub escaped-nil : escaped [] ≡ []
unfolding escaped replace_all
escaped-nil = refl

pub escaped-cons : (c : ℕ) (s : List ℕ) → escaped (c ∷ s) ≡ escaped (c ∷ []) ++ escaped s
unfolding escaped
escaped-cons c s =
    rw (replace_all-append 92 (92 ∷ 92 ∷ []) (c ∷ []) s) rw
      (replace_all-append 39 (92 ∷ 39 ∷ []) _ _) rw (replace_all-append 10 (92 ∷ b'n' ∷ []) _ _) rw
      (replace_all-append 13 (92 ∷ b'r' ∷ []) _ _) (replace_all-append 9 (92 ∷ b't' ∷ []) _ _)

unescape-plain : (c : ℕ) (s : List ℕ) → (c == 92) ≡ false → unescape (c ∷ s) ≡ c ∷ unescape s
unfolding unescape
unescape-plain c [] h = refl
unescape-plain c (d ∷ s) h = rw h

-- One character, escaped, is read back.
pub unescape-escaped_char : (c : ℕ) (s : List ℕ) → unescape (escaped (c ∷ []) ++ s) ≡ c ∷ unescape s
unfolding escaped replace_all unescape
unescape-escaped_char c s = elim (Bool-cases (c == 92)) [
  | inl e ↦ (let same : c ≡ 92 = ground arith in rw same refl)
  | inr e₁ ↦ elim (Bool-cases (c == 39)) [
    | inl e ↦ (let same : c ≡ 39 = ground arith in rw same refl)
    | inr e₂ ↦ elim (Bool-cases (c == 10)) [
      | inl e ↦ (let same : c ≡ 10 = ground arith in rw same refl)
      | inr e₃ ↦ elim (Bool-cases (c == 13)) [
        | inl e ↦ (let same : c ≡ 13 = ground arith in rw same refl)
        | inr e₄ ↦ elim (Bool-cases (c == 9)) [
          | inl e ↦ (let same : c ≡ 9 = ground arith in rw same refl)
          | inr e₅ ↦ rw e₁ (rw e₂ (rw e₃ (rw e₄ (rw e₅ (unescape-plain c s e₁)))))
        ]
      ]
    ]
  ]
]

pub unescape-escaped : (s : List ℕ) → unescape (escaped s) ≡ s
unfolding escaped replace_all unescape
unescape-escaped [] = refl
unescape-escaped (c ∷ s) =
    rw (escaped-cons c s)
      (unescape-escaped_char c (escaped s) ∙ ap (λ t. c ∷ t) (unescape-escaped s))

-- A literal that was made of a text is read as that text.
pub decode-encode : (s : List ℕ) → decode (encode (some s)) ≡ s
unfolding encode decode is_quoted
decode-encode s =
    rw (trim_codes-closed 39 (escaped s) 39 refl refl) rw (last_is-closed (39 ∷ escaped s) 39) rw
      (drop_last-closed (escaped s) 39) (unescape-escaped s)

-- A character stands for itself, or a backslash and another one stand for it.
pub escaped_form :
    (c : ℕ)
    → ((escaped (c ∷ []) ≡ c ∷ []) × ((c == 92) ≡ false) × ((c == 39) ≡ false))
      ⊎ ((e : ℕ) × (escaped (c ∷ []) ≡ 92 ∷ e ∷ []))
unfolding escaped replace_all
escaped_form c = elim (Bool-cases (c == 92)) [
  | inl e ↦ (let same : c ≡ 92 = ground arith in inr (92, rw same refl))
  | inr e₁ ↦ elim (Bool-cases (c == 39)) [
    | inl e ↦ (let same : c ≡ 39 = ground arith in inr (39, rw same refl))
    | inr e₂ ↦ elim (Bool-cases (c == 10)) [
      | inl e ↦ (let same : c ≡ 10 = ground arith in inr (b'n', rw same refl))
      | inr e₃ ↦ elim (Bool-cases (c == 13)) [
        | inl e ↦ (let same : c ≡ 13 = ground arith in inr (b'r', rw same refl))
        | inr e₄ ↦ elim (Bool-cases (c == 9)) [
          | inl e ↦ (let same : c ≡ 9 = ground arith in inr (b't', rw same refl))
          | inr e₅ ↦ inl (rw e₁ (rw e₂ (rw e₃ (rw e₄ (rw e₅ refl)))), e₁, e₂)
        ]
      ]
    ]
  ]
]
