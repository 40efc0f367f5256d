-- ===== src/Store/Pebble.antt =====
-- What the store relies on of the Pebble database: an ordered map from byte strings to byte
-- strings whose batches are committed as a whole or not at all. A failed commit is `none`;
-- failures of reads are not represented.
use bg_pls.Base.{
  ℕ, Text, Option, none, some, List, [], ◌∷◌, Bool, true, false, ◌≡◌, ◌↔◌, text_eq, text_lt,
  if◌then◌else◌, Any, All,
}

pub data BatchOp : Type 0 where
  set : Text → Text → BatchOp
  remove : Text → BatchOp

-- What a batch leaves at a key, given what was there.
abbrev pub written : Text → List BatchOp → Option Text → Option Text
written k [] old = old
written k (set j v ∷ ops) old = written k ops (if text_eq j k then some v else old)
written k (remove j ∷ ops) old = written k ops (if text_eq j k then none else old)

abbrev pub IsAscending : List (Text × Text) → Type 0
IsAscending [] = Unit
IsAscending (e ∷ es) = All (λ f. text_lt e.0 f.0 ≡ true) es × IsAscending es

pub record Pebble : Type 1 where
  pub Db : Type 0
  pub get : Db → Text → Option Text
  pub commit : Db → List BatchOp → Option Db
  -- The entries from a lower bound up to, and without, an upper bound.
  pub scan : Db → Text → Text → List (Text × Text)
  -- `DeleteRange` with the same bounds.
  pub delete_range : Db → Text → Text → Option Db
  -- Whether `Compact`, which only rearranges the files, succeeds.
  pub compacts : Db → Bool
  -- `Metrics().DiskSpaceUsage()`
  pub disk_usage : Db → ℕ
  pub get-commit :
      {db db' : Db} {ops : List BatchOp} (k : Text)
      → commit db ops ≡ some db'
      → get db' k ≡ written k ops (get db k)
  pub get-delete_range :
      {db db' : Db} {lo hi : Text} (k : Text)
      → delete_range db lo hi ≡ some db'
      → get db' k ≡ (if text_lt k lo then get db k else if text_lt k hi then none else get db k)
  pub scan-IsAscending : (db : Db) (lo hi : Text) → IsAscending (scan db lo hi)
  pub mem-scan :
      (db : Db) (lo hi k v : Text)
      → Any (λ e. e ≡ (k, v)) (scan db lo hi)
        ↔ ((get db k ≡ some v) × (text_lt k lo ≡ false) × (text_lt k hi ≡ true))
