-- ===== src/Customers/Words.antt =====
-- `normalize` of backend/src/modules/customer/services/customer.service.ts (and of
-- rate-agreement-matching.service.ts) against the words of a text.
use truckmaster.Base.{
  ℕ, ◌≡◌, refl, sym, ◌∙◌, ap, Bool, true, false, ◌&&◌, List, [], ◌∷◌, ◌++◌, map, filter, lower,
  trim, if◌then◌else◌, arith, Bool-cases, inl, inr, is_space, drop_spaces,
}
use mathlib.Core.List.{reverse, reverse-cons, reverse-append}
use truckmaster.Booking.RateAgreements.{is_alphanumeric, collapse, normalize_codes}

-- The runs of letters and digits, with empty ones between two separators.
abbrev extend : ℕ → List (List ℕ) → List (List ℕ)
extend c [] = (c ∷ []) ∷ []
extend c (w ∷ ws) = (c ∷ w) ∷ ws

abbrev pieces : List ℕ → List (List ℕ)
pieces [] = [] ∷ []
pieces (c ∷ cs) = if is_alphanumeric c then extend c (pieces cs) else [] ∷ pieces cs

abbrev is_word : List ℕ → Bool
is_word [] = false
is_word (c ∷ cs) = true

-- The words of a text, in lower case.
unfoldable pub words : List ℕ → List (List ℕ)
words cs = filter is_word (pieces (map lower cs))

abbrev glue : List (List ℕ) → List ℕ
glue [] = []
glue (w ∷ ws) = b' ' ∷ (w ++ glue ws)

-- Words joined by single blanks.
abbrev pub join : List (List ℕ) → List ℕ
join [] = []
join (w ∷ ws) = w ++ glue ws

-- The words, joined in one pass: a blank is written before a word that is not the first.
abbrev squeeze : Bool → Bool → List ℕ → List ℕ
squeeze started gap [] = []
squeeze started gap (c ∷ cs) =
    let word = c ∷ squeeze true false cs in
    let rest = squeeze started true cs in
    if is_alphanumeric c then if started && gap then b' ' ∷ word else word else rest

abbrev first_word : List (List ℕ) → List ℕ
first_word [] = []
first_word (w ∷ ws) = w

abbrev other_words : List (List ℕ) → List (List ℕ)
other_words [] = []
other_words (w ∷ ws) = filter is_word ws

first_word-extend : (c : ℕ) (ws : List (List ℕ)) → first_word (extend c ws) ≡ c ∷ first_word ws
first_word-extend c [] = refl
first_word-extend c (w ∷ ws) = refl

other_words-extend : (c : ℕ) (ws : List (List ℕ)) → other_words (extend c ws) ≡ other_words ws
other_words-extend c [] = refl
other_words-extend c (w ∷ ws) = refl

filter-extend :
    (c : ℕ) (ws : List (List ℕ))
    → filter is_word (extend c ws) ≡ (c ∷ first_word ws) ∷ other_words ws
filter-extend c [] = refl
filter-extend c (w ∷ ws) = refl

abbrev in_word : List (List ℕ) → List ℕ
in_word ws = first_word ws ++ glue (other_words ws)

abbrev in_gap : List (List ℕ) → List ℕ
in_gap ws = glue (filter is_word ws)

squeeze-started :
    (cs : List ℕ)
    → (squeeze true false cs ≡ in_word (pieces cs)) × (squeeze true true cs ≡ in_gap (pieces cs))
squeeze-started [] = (refl, refl)
squeeze-started (c ∷ cs) =
    let (word, gap) = squeeze-started cs in
    elim (Bool-cases (is_alphanumeric c)) [
      | inl e ↦ (
        rw (e, word, first_word-extend c (pieces cs), other_words-extend c (pieces cs)) refl,
        rw (e, word, filter-extend c (pieces cs)) refl,
      )
      | inr e ↦ (rw (e, gap) refl, rw (e, gap) refl)
    ]

squeeze-join : (gap : Bool) (cs : List ℕ) → squeeze false gap cs ≡ join (filter is_word (pieces cs))
squeeze-join gap [] = refl
squeeze-join gap (c ∷ cs) =
    let (word, later) = squeeze-started cs in
    elim (Bool-cases (is_alphanumeric c)) [
      | inl e ↦ rw (e, word, filter-extend c (pieces cs)) refl
      | inr e ↦ rw (e, squeeze-join true cs) refl
    ]

drop-last :
    (cs : List ℕ) (c : ℕ)
    → is_space c ≡ false
    → drop_spaces (cs ++ c ∷ []) ≡ drop_spaces cs ++ c ∷ []
unfolding drop_spaces
drop-last [] c h = ground (arith, h)
drop-last (x ∷ xs) c h = ground (arith, drop-last xs c h)

drop-last_space :
    (cs : List ℕ)
    → drop_spaces (cs ++ b' ' ∷ [])
      ≡ elim (drop_spaces cs) [ [] ↦ [] | x ∷ xs ↦ x ∷ (xs ++ b' ' ∷ []) ]
unfolding drop_spaces
drop-last_space [] = refl
drop-last_space (x ∷ xs) = elim (Bool-cases (is_space x)) [
  | inl e ↦ rw (e, drop-last_space xs) refl
  | inr e ↦ rw e refl
]

-- The second half of `trim`.
abbrev trim_end : List ℕ → List ℕ
trim_end cs = reverse (drop_spaces (reverse cs))

trim_end-cons : (c : ℕ) (cs : List ℕ) → is_space c ≡ false → trim_end (c ∷ cs) ≡ c ∷ trim_end cs
trim_end-cons c cs h =
    rw
      (
        reverse-cons c cs,
        drop-last (reverse cs) c h,
        reverse-append (drop_spaces (reverse cs)) (c ∷ []),
      )
      refl

abbrev blank_before : List ℕ → List ℕ
blank_before [] = []
blank_before (c ∷ cs) = b' ' ∷ c ∷ cs

blank_before-last : (cs : List ℕ) (c : ℕ) → blank_before (cs ++ c ∷ []) ≡ b' ' ∷ (cs ++ c ∷ [])
blank_before-last [] c = refl
blank_before-last (x ∷ xs) c = refl

reverse-last_space :
    (d : List ℕ)
    → reverse (elim d [ [] ↦ [] | x ∷ xs ↦ x ∷ (xs ++ b' ' ∷ []) ]) ≡ blank_before (reverse d)
reverse-last_space [] = refl
reverse-last_space (x ∷ xs) =
    reverse-append (x ∷ xs) (b' ' ∷ [])
    ∙ (ap (λ r. b' ' ∷ r) (reverse-cons x xs)
        ∙ (sym (blank_before-last (reverse xs) x) ∙ ap blank_before (sym (reverse-cons x xs))))

trim_end-blank : (cs : List ℕ) → trim_end (b' ' ∷ cs) ≡ blank_before (trim_end cs)
trim_end-blank cs =
    rw (reverse-cons b' ' cs, drop-last_space (reverse cs))
      (reverse-last_space (drop_spaces (reverse cs)))

not_space : (c : ℕ) → is_alphanumeric c ≡ true → is_space c ≡ false
not_space c h = ground arith

trim_end-collapse :
    (cs : List ℕ)
    → (trim_end (collapse false cs) ≡ squeeze true false cs)
      × (trim_end (b' ' ∷ collapse true cs) ≡ squeeze true true cs)
unfolding collapse drop_spaces
trim_end-collapse [] = (refl, refl)
trim_end-collapse (c ∷ cs) =
    let (word, gap) = trim_end-collapse cs in
    elim (Bool-cases (is_alphanumeric c)) [
      | inl e ↦
          let cons = trim_end-cons c (collapse false cs) (not_space c e) ∙ ap (λ r. c ∷ r) word in
          (rw e cons, rw e (trim_end-blank (c ∷ collapse false cs) ∙ ap blank_before cons))
      | inr e ↦ (rw e gap, rw e gap)
    ]

drop-collapse :
    (skip gap : Bool) (cs : List ℕ)
    → trim_end (drop_spaces (collapse skip cs)) ≡ squeeze false gap cs
unfolding collapse drop_spaces
drop-collapse skip gap [] = refl
drop-collapse skip gap (c ∷ cs) = elim (Bool-cases (is_alphanumeric c)) [
  | inl e ↦
      rw (e, not_space c e)
        (trim_end-cons c (collapse false cs) (not_space c e)
          ∙ ap (λ r. c ∷ r) (trim_end-collapse cs).0)
  | inr e ↦ elim (Bool-cases skip) [
    | inl k ↦ rw (e, k) (drop-collapse true true cs)
    | inr k ↦ rw (e, k) (drop-collapse true true cs)
  ]
]

-- What `normalize` makes of a text are its words, in lower case, joined by single blanks.
pub normalize_codes-join : (cs : List ℕ) → normalize_codes cs ≡ join (words cs)
unfolding normalize_codes words trim
normalize_codes-join cs =
    drop-collapse false false (map lower cs) ∙ squeeze-join false (map lower cs)
