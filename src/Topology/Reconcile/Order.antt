-- ===== src/Topology/Reconcile/Order.antt =====
-- The canonical entity does not depend on the order in which a loop meets the sources.
use mathlib.Core.List.{Permᴰ}
use mathlib.Core.Path.{ap₂, subst}
use bg_pls.Base.{
  List, [], ◌∷◌, Bool, true, false, ◌≡◌, refl, sym, ap, ◌∙◌, arith, All, text_eq, text_eq_iff,
  text_lt_trans, text_lt_total, text_lt_asymm, sort, insert_sorted,
}
use bg_pls.Base.Dict.{values}
use bg_pls.Topology.Reconcile.{Advertisement, precedes, ordered, canonical, Sources}

-- `sort.Slice` under an order in which ¬ (z < y) and z < x give y < x.
module _ {A : Type 0} (less : A → A → Bool)
    (weak : (x y z : A) → less z x ≡ true → less z y ≡ false → less y x ≡ true) where
  insert_comm :
      (x y : A) (l : List A)
      → (less x y ≡ true → less y x ≡ false)
      → (less x y ≡ false → less y x ≡ true)
      → insert_sorted less x (insert_sorted less y l)
        ≡ insert_sorted less y (insert_sorted less x l)
  insert_comm x y [] asymm total = ground arith
  insert_comm x y (z ∷ l) asymm total =
      ground (arith, weak x y z, weak y x z, insert_comm x y l asymm total)

precedes_weak :
    (x y z : Advertisement) → precedes z x ≡ true → precedes z y ≡ false → precedes y x ≡ true
unfolding precedes
precedes_weak x y z h k =
    ground (arith, text_lt_total z.peer_id y.peer_id, text_lt_trans y.peer_id z.peer_id x.peer_id)

precedes-false :
    (x y : Advertisement)
    → text_eq x.peer_id y.peer_id ≡ false
    → precedes x y ≡ true
    → precedes y x ≡ false
unfolding precedes
precedes-false x y d h = ground (arith, text_lt_asymm x.peer_id y.peer_id)

precedes-true :
    (x y : Advertisement)
    → text_eq x.peer_id y.peer_id ≡ false
    → precedes x y ≡ false
    → precedes y x ≡ true
unfolding precedes
precedes-true x y d h =
    ground (arith, text_lt_total x.peer_id y.peer_id, text_eq_iff x.peer_id y.peer_id)

abbrev pub Apart : Advertisement → List Advertisement → Type 0
Apart a = All (λ b. text_eq a.peer_id b.peer_id ≡ false)

-- No two advertisements are of one peer.
abbrev pub IsDistinct : List Advertisement → Type 0
IsDistinct [] = Unit
IsDistinct (a ∷ rest) = Apart a rest × IsDistinct rest

All-perm {ℓ} : {A : Type 0} (P : A → Type ℓ) {xs ys : List A} → Permᴰ xs ys → All P xs → All P ys
All-perm P Permᴰ.nil h = h
All-perm P (Permᴰ.cons e p) h = (subst P e h.0, All-perm P p h.1)
All-perm P (Permᴰ.swap e f) h = (subst P f h.1.0, (subst P e h.0, h.1.1))
All-perm P (Permᴰ.trans p q) h = All-perm P q (All-perm P p h)

text_eq-swap :
    (a b : Advertisement)
    → text_eq a.peer_id b.peer_id ≡ false
    → text_eq b.peer_id a.peer_id ≡ false
text_eq-swap a b h =
    ground (arith, text_eq_iff a.peer_id b.peer_id, text_eq_iff b.peer_id a.peer_id)

IsDistinct-perm : {xs ys : List Advertisement} → Permᴰ xs ys → IsDistinct xs → IsDistinct ys
IsDistinct-perm Permᴰ.nil h = h
IsDistinct-perm (Permᴰ.cons {b} {l₂} e p) h =
    (subst (λ x. Apart x l₂) e (All-perm _ p h.0), IsDistinct-perm p h.1)
IsDistinct-perm (Permᴰ.swap {a} {b} {a'} {b'} {l} e f) h = (
  (
    ap₂ (λ x y. text_eq x.peer_id y.peer_id) (sym f) (sym e) ∙ text_eq-swap a b h.0.0,
    subst (λ x. Apart x l) f h.1.0,
  ),
  (subst (λ x. Apart x l) e h.0.1, h.1.1),
)
IsDistinct-perm (Permᴰ.trans p q) h = IsDistinct-perm q (IsDistinct-perm p h)

sort-perm :
    {xs ys : List Advertisement} → Permᴰ xs ys → IsDistinct xs → sort precedes xs ≡ sort precedes ys
sort-perm Permᴰ.nil h = refl
sort-perm (Permᴰ.cons e p) h = ap₂ (insert_sorted precedes) e (sort-perm p h.1)
sort-perm (Permᴰ.swap {a} {b} {l} e f) h =
    insert_comm precedes precedes_weak a b (sort precedes l) (precedes-false a b h.0.0)
      (precedes-true a b h.0.0)
    ∙ ap₂ (λ x y. insert_sorted precedes x (insert_sorted precedes y (sort precedes l))) f e
sort-perm (Permᴰ.trans p q) h = sort-perm p h ∙ sort-perm q (IsDistinct-perm p h)

-- Where no two advertisements are of one peer, two orders of the same sources give the same
-- canonical entity, source list included.
pub canonical_order :
    (s t : Sources)
    → Permᴰ (values s) (values t)
    → IsDistinct (values s)
    → canonical (ordered s) ≡ canonical (ordered t)
unfolding ordered
canonical_order s t p h = ap canonical (sort-perm p h)
