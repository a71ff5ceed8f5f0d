-- ===== src/Flows/Payload/Written.antt =====
-- What is read after a payload was written.
use nodestack.Prelude.{
  ℕ, zero, suc, String, Bool, true, false, List, [], ◌∷◌, Option, none, some, inl, inr, ◌≡◌, ◌=ₜ◌,
  refl, if◌then◌else◌, Bool-cases, eq_refl, ◌∙◌, ap,
}
use nodestack.Json.{
  Json, null, bool, num, text, time, arr, obj, Items, nil, cons, Fields, end, field, get_field,
}
use nodestack.Flows.Paths.{Segment, key, index, parse_path, is_root}
use nodestack.Flows.Payload.{
  get, set, get_in, set_in, set_segments, set_field, put_item, item, member, assign, container,
  opened, index_text,
}

-- No key of the segments meets an array.
unfoldable pub fits : Option Json → List Segment → Bool
unfolding member
fits v [] = true
fits none (s ∷ ss) = true
fits (some (arr xs)) (key k ∷ ss) = false
fits (some (arr xs)) (index n ∷ ss) = fits (item n xs) ss
fits (some (obj fs)) (s ∷ ss) = fits (member (obj fs) s) ss
fits (some null) (s ∷ ss) = true
fits (some (bool b)) (s ∷ ss) = true
fits (some (num n)) (s ∷ ss) = true
fits (some (text t)) (s ∷ ss) = true
fits (some (time t)) (s ∷ ss) = true

get-set_field : (k : String) (v : Json) (fs : Fields) → get_field k (set_field k v fs) ≡ some v
unfolding set_field
get-set_field k v end = rw (eq_refl k) refl
get-set_field k v (field j w fs) = elim (Bool-cases (j =ₜ k)) [
  | inl e ↦ rw (e, e) refl
  | inr e ↦ rw (e, e) (get-set_field k v fs)
]

item-put_item : (n : ℕ) (v : Json) (xs : Items) → item n (put_item n v xs) ≡ some v
unfolding put_item
item-put_item zero v nil = refl
item-put_item zero v (cons x xs) = refl
item-put_item (suc n) v nil = item-put_item n v nil
item-put_item (suc n) v (cons x xs) = item-put_item n v xs

module _ (w : Json) (ss : List Segment) (d : Option Json) where
  reads_object :
      (fs : Fields) (s : Segment)
      → get_in (some (assign (obj fs) s (some w))) (s ∷ ss) d ≡ get_in (some w) ss d
  unfolding get_in assign member
  reads_object fs (key k) = ap (λ o. get_in o ss d) (get-set_field k w fs)
  reads_object fs (index n) = ap (λ o. get_in o ss d) (get-set_field (index_text n) w fs)

  reads_array :
      (xs : Items) (n : ℕ)
      → get_in (some (assign (arr xs) (index n) (some w))) (index n ∷ ss) d ≡ get_in (some w) ss d
  unfolding get_in assign member
  reads_array xs n = ap (λ o. get_in o ss d) (item-put_item n w xs)

  reads_new :
      (s : Segment)
      → get_in (some (assign (container s) s (some w))) (s ∷ ss) d ≡ get_in (some w) ss d
  reads_new (key k) = reads_object end (key k)
  reads_new (index n) = reads_array nil n

  -- What is assigned to a segment is read on from there.
  get_in-assign :
      (target : Option Json) (s : Segment)
      → fits target (s ∷ ss) ≡ true
      → get_in (some (assign (opened target s) s (some w))) (s ∷ ss) d ≡ get_in (some w) ss d
  unfolding fits
  get_in-assign none s h = reads_new s
  get_in-assign (some (obj fs)) s h = reads_object fs s
  get_in-assign (some (arr xs)) (key k) h = absurd (cc h)
  get_in-assign (some (arr xs)) (index n) h = reads_array xs n
  get_in-assign (some null) s h = reads_new s
  get_in-assign (some (bool b)) s h = reads_new s
  get_in-assign (some (num n)) s h = reads_new s
  get_in-assign (some (text t)) s h = reads_new s
  get_in-assign (some (time t)) s h = reads_new s

fits-none : (ss : List Segment) → fits none ss ≡ true
unfolding fits
fits-none [] = refl
fits-none (s ∷ ss) = refl

fits_new : (s : Segment) (ss : List Segment) → fits (member (container s) s) ss ≡ true
unfolding member
fits_new (key k) ss = fits-none ss
fits_new (index n) ss = fits-none ss

fits-member :
    (target : Option Json) (s : Segment) (ss : List Segment)
    → fits target (s ∷ ss) ≡ true
    → fits (member (opened target s) s) ss ≡ true
unfolding fits member
fits-member none s ss h = fits_new s ss
fits-member (some (obj fs)) s ss h = h
fits-member (some (arr xs)) (key k) ss h = absurd (cc h)
fits-member (some (arr xs)) (index n) ss h = h
fits-member (some null) s ss h = fits_new s ss
fits-member (some (bool b)) s ss h = fits_new s ss
fits-member (some (num n)) s ss h = fits_new s ss
fits-member (some (text t)) s ss h = fits_new s ss
fits-member (some (time t)) s ss h = fits_new s ss

get_in-set_in :
    (target : Option Json) (s : Segment) (ss : List Segment) (v : Json) (d : Option Json)
    → fits target (s ∷ ss) ≡ true
    → get_in (some (set_in (s ∷ ss) (opened target s) (some v))) (s ∷ ss) d ≡ some v
unfolding set_in get_in
get_in-set_in target s [] v d h = get_in-assign v [] d target s h
get_in-set_in target s (t ∷ ss) v d h =
    get_in-assign (set_in (t ∷ ss) (opened (member (opened target s) s) t) (some v)) (t ∷ ss) d
      target s h
    ∙ get_in-set_in (member (opened target s) s) t ss v d (fits-member target s (t ∷ ss) h)

set_segments-get :
    (target : Option Json) (ss : List Segment) (v : Json) (d : Option Json)
    → fits target ss ≡ true
    → get_in (set_segments target ss (some v)) ss d ≡ some v
unfolding get_in
set_segments-get target [] v d h = refl
set_segments-get target (s ∷ ss) v d h = get_in-set_in target s ss v d h

-- A root is replaced and read as a whole; what is at a path is read as `at_path` says.
at_root_or_path :
    (b : Bool) (v : Json) (d written : Option Json) (at_path : Option Json → Option Json)
    → at_path written ≡ some v
    → (if b
        then get_in (if b then some v else written) [] d
        else at_path (if b then some v else written))
      ≡ some v
unfolding get_in
at_root_or_path true v d written at_path h = refl
at_root_or_path false v d written at_path h = h

-- A safe path reads back the value that was set at it, if no key of the
-- path meets an array; whether the target, or what the path leads through, was there or not.
pub get-set :
    (target : Option Json) (p : String) (ss : List Segment) (v : Json) (d : Option Json)
    → parse_path p ≡ some ss
    → fits target ss ≡ true
    → get (set target (some p) (some v)) (some p) d ≡ some v
unfolding get set
get-set target p ss v d h k =
    at_root_or_path (is_root (some p)) v d
      (elim (parse_path p) [ none ↦ target | some ts ↦ set_segments target ts (some v) ])
      (λ t. elim (parse_path p) [ none ↦ d | some ts ↦ get_in t ts d ])
      (rw (h, h) (set_segments-get target ss v d k))
