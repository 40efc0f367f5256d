-- ===== src/Api/Page.antt =====
-- The bounded, paginated lists of internal/api: `pageBounds` and `nextToken` of filter.go, and
-- the loop that ListDomains, ListNodes, ListLinks, ListPrefixes and ListPeers share.
pub mod Walk
use bg_pls.Base.{
  ℕ, zero, suc, ◌+◌, ◌<◌, ◌≤◌, Text, Option, none, some, List, [], ◌∷◌, ◌++◌, Bool, true, false,
  not, ◌&&◌, ◌||◌, ◌==◌, ltb, length, take, get_last?, text_eq, text_lt, if◌then◌else◌,
}
use bg_pls.Base.Base64.{encode, decode}

pub record Page : Type 0 where
  pub page_size : ℕ
  pub page_token : Text

unfoldable pub page_bounds : Option Page → ℕ × Text
page_bounds none = (100, [])
page_bounds (some page) =
    let size = if page.page_size == 0 then 100 else page.page_size in
    (if ltb 1000 size then 1000 else size, decode page.page_token)

unfoldable pub next_token : Text → Bool → Text
next_token id more = if not more then [] else encode id

module _ {A : Type 0} (id : A → Text) (matches : A → Bool) where
  -- The loop over a snapshot's entities: `id <= after` is the negation of `after < id`.
  unfoldable pub collect : ℕ → Text → List A → List A → List A
  collect size after out [] = out
  collect size after out (v ∷ vs) =
      let next = out ++ v ∷ [] in
      let skipped = collect size after out vs in
      let rest = collect size after next vs in
      if not (text_lt after (id v)) || not (matches v)
      then skipped
      else if ltb size (length next)
      then next
      else rest

  -- The entities shown and the token of the next page: the loop may have gone one entity too far.
  unfoldable pub cut : ℕ → List A → List A × Text
  unfolding next_token
  cut size out =
      let more = ltb size (length out) in
      let shown = if more then take size out else out in
      let token : Text = elim (get_last? shown) [ none ↦ [] | some v ↦ next_token (id v) more ] in
      (shown, token)

  unfoldable pub list_page : Option Page → List A → List A × Text
  unfolding collect page_bounds cut
  list_page page vs = let (size, after) = page_bounds page in cut size (collect size after [] vs)
