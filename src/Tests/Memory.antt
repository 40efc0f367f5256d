-- ===== src/Tests/Memory.antt =====
-- A database in memory and a small JSON codec: the assumptions on Pebble and on encoding/json can
-- be met.
use mathlib.Core.Bool.{false≢true}
use mathlib.Core.Path.{ap₂}
use bg_pls.Base.{
  Text, text, Option, none, some, List, [], ◌∷◌, Bool, true, false, not, ◌&&◌, ◌≡◌, ◌≢◌, ◌↔◌, inl,
  inr, refl, sym, ap, ◌∙◌, subst, text_eq, text_lt, text_eq_iff, text_eq_refl, eq_of_text_eq,
  text_lt_irrefl, text_lt_trans, text_lt_total, if◌then◌else◌, All, Any, All-filter, filter, arith,
  Bool-cases,
}
use bg_pls.Base.Dict.{Dict, lookup, insert, erase, lookup-insert, lookup-erase}
use bg_pls.Entities.{Domain, Message, domain_message}
use bg_pls.Store.Pebble.{Pebble, BatchOp, set, remove, written, IsAscending}
use bg_pls.Store.Json.{Json}

unfoldable pub commit : Dict Text → List BatchOp → Dict Text
commit db [] = db
commit db (set k v ∷ ops) = commit (insert k v db) ops
commit db (remove k ∷ ops) = commit (erase k db) ops

-- An entry put in its place in key order.
unfoldable pub place : Text → Text → Dict Text → Dict Text
place k v [] = (k, v) ∷ []
place k v ((j, w) ∷ l) =
    if text_lt k j
    then (k, v) ∷ (j, w) ∷ l
    else if text_eq j k
    then (k, v) ∷ l
    else (j, w) ∷ place k v l

unfoldable pub in_order : Dict Text → Dict Text
in_order [] = []
in_order ((k, v) ∷ db) = place k v (in_order db)

abbrev in_range : Text → Text → Text × Text → Bool
in_range lo hi e = not (text_lt e.0 lo) && text_lt e.0 hi

unfoldable pub scan : Dict Text → Text → Text → Dict Text
unfolding in_order place
scan db lo hi = filter (in_range lo hi) (in_order db)

-- `DeleteRange`
unfoldable pub delete_range : Dict Text → Text → Text → Dict Text
delete_range db lo hi = filter (λ e. not (in_range lo hi e)) db

get-commit :
    (k : Text) (db : Dict Text) (ops : List BatchOp)
    → lookup k (commit db ops) ≡ written k ops (lookup k db)
unfolding commit
get-commit k db [] = refl
get-commit k db (set j v ∷ ops) =
    get-commit k (insert j v db) ops ∙ ap (written k ops) (lookup-insert j k v db)
get-commit k db (remove j ∷ ops) =
    get-commit k (erase j db) ops ∙ ap (written k ops) (lookup-erase j k db)

get-delete_range :
    (k lo hi : Text) (db : Dict Text)
    → lookup k (delete_range db lo hi)
      ≡ (if text_lt k lo then lookup k db else if text_lt k hi then none else lookup k db)
unfolding delete_range lookup
get-delete_range k lo hi [] = ground arith
get-delete_range k lo hi ((j, w) ∷ db) =
    ground (arith, text_eq_iff j k, get-delete_range k lo hi db)

lookup-place :
    (k j v : Text) (l : Dict Text)
    → lookup j (place k v l) ≡ (if text_eq k j then some v else lookup j l)
unfolding place lookup
lookup-place k j v [] = refl
lookup-place k j v ((i, w) ∷ l) =
    ground (arith, text_eq_iff k j, text_eq_iff i k, text_eq_iff i j, lookup-place k j v l)

lookup-in_order : (k : Text) (db : Dict Text) → lookup k (in_order db) ≡ lookup k db
unfolding in_order lookup
lookup-in_order k [] = refl
lookup-in_order k ((j, w) ∷ db) =
    ground (arith, lookup-place j k w (in_order db), lookup-in_order k db)

All-place :
    (i k v : Text) (l : Dict Text)
    → text_lt i k ≡ true
    → All (λ e. text_lt i e.0 ≡ true) l
    → All (λ e. text_lt i e.0 ≡ true) (place k v l)
unfolding place
All-place i k v [] h a = (h, tt)
All-place i k v ((j, w) ∷ l) h a = ground (arith, All-place i k v l h a.1)

All-below :
    (i k : Text) (l : Dict Text)
    → text_lt i k ≡ true
    → All (λ e. text_lt k e.0 ≡ true) l
    → All (λ e. text_lt i e.0 ≡ true) l
All-below i k [] h a = tt
All-below i k ((j, w) ∷ l) h a = (text_lt_trans i k j h a.0, All-below i k l h a.1)

place-IsAscending : (k v : Text) (l : Dict Text) → IsAscending l → IsAscending (place k v l)
unfolding place
place-IsAscending k v [] h = (tt, tt)
place-IsAscending k v ((j, w) ∷ l) h = elim (Bool-cases (text_lt k j)) [
  | inl below ↦ rw below ((below, All-below k j l below h.0), h)
  | inr above ↦ elim (Bool-cases (text_eq j k)) [
    | inl same ↦
        rw (above, same)
          (subst (λ i. All (λ e. text_lt i e.0 ≡ true) l) (eq_of_text_eq j k same) h.0, h.1)
    | inr other ↦
        rw (above, other)
          (
            All-place j k v l
                (ground (arith, text_lt_total k j above, text_eq_iff j k, Bool-cases (text_lt j k)))
                h.0,
            place-IsAscending k v l h.1,
          )
  ]
]

in_order-IsAscending : (db : Dict Text) → IsAscending (in_order db)
unfolding in_order
in_order-IsAscending [] = tt
in_order-IsAscending ((k, v) ∷ db) = place-IsAscending k v (in_order db) (in_order-IsAscending db)

filter-IsAscending :
    (p : Text × Text → Bool) (l : Dict Text) → IsAscending l → IsAscending (filter p l)
filter-IsAscending p [] h = tt
filter-IsAscending p (e ∷ l) h = elim (Bool-cases (p e)) [
  | inl yes_it ↦ rw yes_it (All-filter _ p l h.0, filter-IsAscending p l h.1)
  | inr not_it ↦ rw not_it (filter-IsAscending p l h.1)
]

pub scan-IsAscending : (db : Dict Text) (lo hi : Text) → IsAscending (scan db lo hi)
unfolding scan
scan-IsAscending db lo hi =
    filter-IsAscending (in_range lo hi) (in_order db) (in_order-IsAscending db)

mem-filter :
    (p : Text × Text → Bool) (k v : Text) (l : Dict Text)
    → Any (λ e. e ≡ (k, v)) (filter p l) ↔ (Any (λ e. e ≡ (k, v)) l × (p (k, v) ≡ true))
mem-filter p k v [] = (λ h. absurd h, λ h. h.0)
mem-filter p k v (e ∷ l) = elim (Bool-cases (p e)) [
  | inl kept ↦ rw kept (
    λ h. elim h [
      | inl q ↦ (inl q, ap p (sym q) ∙ kept)
      | inr m ↦ let (m', q) = (mem-filter p k v l).0 m in (inr m', q)
    ],
    λ h. elim h.0 [ inl q ↦ inl q | inr m ↦ inr ((mem-filter p k v l).1 (m, h.1)) ],
  )
  | inr lost ↦ rw lost (
    λ m. let (m', q) = (mem-filter p k v l).0 m in (inr m', q),
    λ h. elim h.0 [
      | inl q ↦ absurd (false≢true (sym lost ∙ ap p q ∙ h.1))
      | inr m ↦ (mem-filter p k v l).1 (m, h.1)
    ],
  )
]

All-Any :
    (P : Text × Text → Type 0) (l : Dict Text) {x : Text × Text}
    → All P l
    → Any (λ e. e ≡ x) l
    → P x
All-Any P [] a h = absurd h
All-Any P (e ∷ l) a (inl q) = subst P q a.0
All-Any P (e ∷ l) a (inr q) = All-Any P l a.1 q

mem-lookup :
    (k v : Text) (l : Dict Text) → IsAscending l → Any (λ e. e ≡ (k, v)) l ↔ (lookup k l ≡ some v)
unfolding lookup
mem-lookup k v [] a = (λ h. absurd h, λ h. absurd (cc))
mem-lookup k v ((j, w) ∷ l) a = (
  λ h. elim h [
    | inl q ↦ ground (arith, ap (λ e. e.0) q, ap (λ e. e.1) q, text_eq_refl k)
    | inr m ↦
        let above = All-Any (λ e. text_lt j e.0 ≡ true) l a.0 m in
        ground (arith, (mem-lookup k v l a.1).0 m, eq_of_text_eq j k, text_lt_irrefl k, above)
  ],
  λ h. elim (Bool-cases (text_eq j k)) [
    | inl same ↦
        let value : w ≡ v = ground arith in inl (ap₂ (λ x y. (x, y)) (eq_of_text_eq j k same) value)
    | inr other ↦ inr ((mem-lookup k v l a.1).1 (ground arith))
  ],
)

abbrev pub IsIn : Dict Text → Text → Text → Text → Text → Type 0
IsIn db lo hi k v = (lookup k db ≡ some v) × (text_lt k lo ≡ false) × (text_lt k hi ≡ true)

pub mem-scan :
    (db : Dict Text) (lo hi k v : Text) → Any (λ e. e ≡ (k, v)) (scan db lo hi) ↔ IsIn db lo hi k v
unfolding scan
mem-scan db lo hi k v =
    let kept = mem-filter (in_range lo hi) k v (in_order db) in
    let held = mem-lookup k v (in_order db) (in_order-IsAscending db) in
    (
      λ m.
          let (m', q) = kept.0 m in
          (sym (lookup-in_order k db) ∙ held.0 m', ground arith, ground arith),
      λ (there, above, below). kept.1 (held.1 (lookup-in_order k db ∙ there), ground arith),
    )

pub get-some_commit :
    (db : Dict Text) (ops : List BatchOp) {db' : Dict Text} (k : Text)
    → some (commit db ops) ≡ some db'
    → lookup k db' ≡ written k ops (lookup k db)
get-some_commit db ops k h =
    let q : commit db ops ≡ _ = cc in ap (lookup k) (sym q) ∙ get-commit k db ops

pub get-some_delete :
    (db : Dict Text) (lo hi : Text) {db' : Dict Text} (k : Text)
    → some (delete_range db lo hi) ≡ some db'
    → lookup k db'
      ≡ (if text_lt k lo then lookup k db else if text_lt k hi then none else lookup k db)
get-some_delete db lo hi k h =
    let q : delete_range db lo hi ≡ _ = cc in ap (lookup k) (sym q) ∙ get-delete_range k lo hi db

abbrev pub memory : Pebble
memory = record {
  Db = Dict Text;
  get = λ db k. lookup k db;
  commit = λ db ops. some (commit db ops);
  scan = scan;
  delete_range = λ db lo hi. some (delete_range db lo hi);
  compacts = λ db. true;
  disk_usage = λ db. 0;
  get-commit = λ {db} {ops = ops} k h. get-some_commit db ops k h;
  get-delete_range = λ {db} {lo = lo} {hi = hi} k h. get-some_delete db lo hi k h;
  scan-IsAscending = scan-IsAscending;
  mem-scan = mem-scan;
}

-- A domain without name and description is written as its revision and id.
abbrev pub DomainOnly : Message → Type 0
DomainOnly (domain_message d) = (d.name ≡ []) × (d.description ≡ [])
DomainOnly _ = ⊥

abbrev pub write : Message → Option Text
write (domain_message d) = some (b'{' ∷ d.revision ∷ d.id)
write _ = some (b'{' ∷ [])

abbrev pub read_domain : Text → Option Domain
read_domain (c ∷ rev ∷ id) = some (record { id = id; name = []; description = []; revision = rev })
read_domain _ = none

pub read_domain-write :
    (v : Domain) (b : Text)
    → DomainOnly (domain_message v)
    → write (domain_message v) ≡ some b
    → read_domain b ≡ some v
read_domain-write v b plain h = ground arith

pub write-ne-nil : (v : Message) → write v ≢ some []
write-ne-nil (domain_message d) h = absurd (cc)
write-ne-nil v h = absurd (cc)

pub write-ne-null : (v : Message) → write v ≢ some (text "null")
write-ne-null (domain_message d) h = absurd (ground arith)
write-ne-null v h = absurd (ground arith)

abbrev pub codec : Json
codec = record {
  marshal = write;
  unmarshal_node = λ b. none;
  unmarshal_link = λ b. none;
  unmarshal_prefix = λ b. none;
  unmarshal_peer = λ b. none;
  unmarshal_domain = read_domain;
  marshal_event = λ e. some (b'{' ∷ e.revision ∷ e.entity_id);
  unmarshal_event = λ b. none;
  IsPlain = DomainOnly;
  unmarshal_node-marshal = λ v b p h. absurd p;
  unmarshal_link-marshal = λ v b p h. absurd p;
  unmarshal_prefix-marshal = λ v b p h. absurd p;
  unmarshal_peer-marshal = λ v b p h. absurd p;
  unmarshal_domain-marshal = read_domain-write;
  marshal-ne-nil = write-ne-nil;
  marshal-ne-null = write-ne-null;
}
