-- ===== src/Api/Page/Walk.antt =====
-- A client of a paginated list follows the tokens until there is none.
use bg_pls.Base.{
  ℕ, zero, suc, ◌+◌, ◌<◌, ◌≤◌, ◌≡◌, refl, sym, ap, ◌∙◌, subst, Text, Option, none, some, List, [],
  ◌∷◌, ◌++◌, Bool, true, false, ◌&&◌, ltb, length, take, drop, filter, get_last?, text_lt,
  text_lt_trans, text_lt_irrefl, text_lt_asymm, text_lt-nil, if◌then◌else◌, is_empty, All, arith,
  inl, inr, Bool-cases, &&-eq-true, ltb→lt, append-nil, append_assoc, length-append, length-drop,
  length-take, take-append-drop, take_of_length-le, take-take-suc, get_last?-All, get_last?-cons,
  All-take, All-filter, All-filter_self, filter-All,
}
use mathlib.Core.Option
use bg_pls.Base.Base64.{encode, decode, decode-encode}
use bg_pls.Api.Page.{page_bounds, next_token, collect, cut, list_page}

module _ {A : Type 0} (id : A → Text) (matches : A → Bool) where
  abbrev selected : Text → A → Bool
  selected after v = text_lt after (id v) && matches v

  -- A snapshot is sorted by id.
  abbrev pub IsIncreasing : List A → Type 0
  IsIncreasing [] = Unit
  IsIncreasing (x ∷ xs) = All (λ y. text_lt (id x) (id y) ≡ true) xs × IsIncreasing xs

  -- The loop stops one entity past the page.
  collect_lem :
      (size : ℕ) (after : Text) (k : ℕ) (out vs : List A)
      → length out + k ≡ size
      → collect id matches size after out vs ≡ out ++ take (suc k) (filter (selected after) vs)
  unfolding collect
  collect_lem size after k out [] h = sym (append-nil out)
  collect_lem size after zero out (v ∷ vs) h =
      ground (arith, collect_lem size after zero out vs h, length-append out (v ∷ []))
  collect_lem size after (suc k) out (v ∷ vs) h = ground (
    arith,
    length-append out (v ∷ []),
    collect_lem size after (suc k) out vs h,
    collect_lem size after k (out ++ v ∷ []) vs,
    append_assoc out (v ∷ []) (take (suc k) (filter (selected after) vs)),
  )

  IsIncreasing-filter : (p : A → Bool) (xs : List A) → IsIncreasing xs → IsIncreasing (filter p xs)
  IsIncreasing-filter p [] h = tt
  IsIncreasing-filter p (x ∷ xs) h = elim (Bool-cases (p x)) [
    | inl e ↦ rw e (All-filter _ p xs h.0, IsIncreasing-filter p xs h.1)
    | inr e ↦ rw e (IsIncreasing-filter p xs h.1)
  ]

  -- What lies behind the last entity of the first `n` is the rest.
  filter-after_last :
      (n : ℕ) (xs : List A) {l : A}
      → IsIncreasing xs
      → get_last? (take n xs) ≡ some l
      → filter (λ w. text_lt (id l) (id w)) xs ≡ drop n xs
  filter-after_last zero xs h e = cc
  filter-after_last (suc n) [] h e = refl
  filter-after_last (suc zero) (x ∷ xs) {l} h e =
      let q : x ≡ l = cc in
      subst (λ k. filter (λ w. text_lt (id k) (id w)) (x ∷ xs) ≡ xs) q
        (rw (text_lt_irrefl (id x)) (filter-All _ xs h.0))
  filter-after_last (suc (suc n)) (x ∷ []) {l} h e =
      let q : x ≡ l = cc in
      subst (λ k. filter (λ w. text_lt (id k) (id w)) (x ∷ []) ≡ []) q (rw (text_lt_irrefl (id x)))
  filter-after_last (suc (suc n)) (x ∷ y ∷ xs) {l} h e =
      let below = get_last?-All _ (take (suc n) (y ∷ xs)) (All-take _ (suc n) (y ∷ xs) h.0) e in
      rw (text_lt_asymm (id x) (id l) below) (filter-after_last (suc n) (y ∷ xs) h.1 e)

  -- A later cursor selects from what an earlier one selects.
  filter-later :
      (after : Text) (l : A) (vs : List A)
      → text_lt after (id l) ≡ true
      → filter (selected (id l)) vs
        ≡ filter (λ w. text_lt (id l) (id w)) (filter (selected after) vs)
  filter-later after l [] h = refl
  filter-later after l (v ∷ vs) h =
      ground (arith, text_lt_trans after (id l) (id v) h, filter-later after l vs h)

  -- A page holds the first `size` entities, and its token names the last one if there are more.
  abbrev page_of : ℕ → List A → List A × Text
  page_of size found = (
    take size found,
    elim (get_last? (take size found)) [
      | none ↦ []
      | some v ↦ next_token (id v) (ltb size (length found))
    ],
  )

  cut_lem :
      (size : ℕ) (found : List A) → cut id matches size (take (suc size) found) ≡ page_of size found
  unfolding cut
  cut_lem size found = ground (
    arith,
    take-take-suc size found,
    length-take (suc size) found,
    take_of_length-le (suc size) found,
    take_of_length-le size found,
  )

  page_bounds_lem :
      (size : ℕ) (token : Text)
      → 0 < size
      → size ≤ 1000
      → page_bounds (some (record { page_size = size; page_token = token })) ≡ (size, decode token)
  unfolding page_bounds
  page_bounds_lem size token pos le = ground arith

  page_lem :
      (size : ℕ) (token : Text) (vs : List A)
      → 0 < size
      → size ≤ 1000
      → list_page id matches (some (record { page_size = size; page_token = token })) vs
        ≡ page_of size (filter (selected (decode token)) vs)
  unfolding list_page
  page_lem size token vs pos le =
      ap (λ b. cut id matches b.0 (collect id matches b.0 b.1 [] vs))
        (page_bounds_lem size token pos le)
      ∙ ap (cut id matches size) (collect_lem size (decode token) size [] vs (omega arith))
      ∙ cut_lem size (filter (selected (decode token)) vs)

  finish : (Text → Option (List A)) → List A × Text → Option (List A)
  finish more (shown, next) =
      if is_empty next then some shown else Option.map (λ rest. shown ++ rest) (more next)

  -- A client asks for page after page until the token is empty; `none` means out of fuel.
  pub walk : ℕ → ℕ → Text → List A → Option (List A)
  unfolding finish
  walk zero size token vs = none
  walk (suc fuel) size token vs =
      finish (λ next. walk fuel size next vs)
        (list_page id matches (some (record { page_size = size; page_token = token })) vs)

  abbrev pub IsBytes : Text → Type 0
  IsBytes = All (λ b. b < 256)

  last_page :
      (size : ℕ) (found : List A)
      → ltb size (length found) ≡ false
      → page_of size found ≡ (found, [])
  unfolding next_token
  last_page size found h = ground (arith, take_of_length-le size found)

  more_pages :
      (size : ℕ) (found : List A)
      → 0 < size
      → ltb size (length found) ≡ true
      → (l : A) × (get_last? (take size found) ≡ some l)
        × (page_of size found ≡ (take size found, encode (id l)))
  unfolding next_token
  more_pages zero found pos h = absurd (omega arith)
  more_pages (suc n) [] pos h = absurd (ground arith)
  more_pages (suc n) (x ∷ xs) pos h =
      let (l, e) = get_last?-cons x (take n xs) in (l, e, ground arith)

  encode-ne-nil : (after s : Text) → text_lt after s ≡ true → is_empty (encode s) ≡ false
  unfolding encode
  encode-ne-nil after [] h = ground (arith, text_lt-nil after)
  encode-ne-nil after (a ∷ []) h = refl
  encode-ne-nil after (a ∷ b ∷ []) h = refl
  encode-ne-nil after (a ∷ b ∷ c ∷ s) h = refl

  module _ (vs : List A) (sorted : IsIncreasing vs) (bytes : All (λ v. IsBytes (id v)) vs) where
    last_found :
        (after : Text) (size : ℕ) (l : A)
        → get_last? (take size (filter (selected after) vs)) ≡ some l
        → text_lt after (id l) ≡ true
    last_found after size l e =
        (&&-eq-true _ _
          (get_last?-All _ _ (All-take _ size _ (All-filter_self (selected after) vs)) e)).0

    last-IsBytes :
        (after : Text) (size : ℕ) (l : A)
        → get_last? (take size (filter (selected after) vs)) ≡ some l
        → IsBytes (id l)
    last-IsBytes after size l e =
        get_last?-All (λ v. IsBytes (id v)) _
          (All-take _ size _ (All-filter _ (selected after) vs bytes)) e

    -- Over entities in increasing order of their ids, which are made of bytes, following the tokens
    -- with any page size from 1 to 1000 ends, with fuel above the number of selected entities, and
    -- lists exactly the selected entities behind the first token, in order.
    pub walk_lem :
        (fuel size : ℕ) (token : Text)
        → 0 < size
        → size ≤ 1000
        → length (filter (selected (decode token)) vs) < fuel
        → walk fuel size token vs ≡ some (filter (selected (decode token)) vs)
    unfolding walk finish
    walk_lem zero size token pos le h = absurd (omega arith)
    walk_lem (suc fuel) size token pos le h =
        let found = filter (selected (decode token)) vs in
        elim (Bool-cases (ltb size (length found))) [
          | inl e ↦
              let (l, last, page) = more_pages size found pos e in
              let later = last_found (decode token) size l last in
              let there = last-IsBytes (decode token) size l last in
              let cursor = decode-encode (id l) there in
              let rest_lem : filter (selected (decode (encode (id l)))) vs ≡ drop size found =
                rw cursor (
                  filter-later (decode token) l vs later
                  ∙ filter-after_last size found (IsIncreasing-filter _ vs sorted) last) in
              ap (finish (λ next. walk fuel size next vs)) (page_lem size token vs pos le ∙ page)
              ∙ rw
                  (
                    encode-ne-nil (decode token) (id l) later,
                    walk_lem fuel size (encode (id l)) pos le
                        (rw rest_lem (omega (arith, length-drop size found, ltb→lt _ _ e))),
                    rest_lem,
                  )
                  (ap some (take-append-drop size found))
          | inr e ↦
              ap (finish (λ next. walk fuel size next vs))
                (page_lem size token vs pos le ∙ last_page size found e)
        ]
