-- ===== src/Map.antt =====
-- The keyed tables of the server (`DashMap<String, V>`): a list of entries with distinct keys. The
-- order in which the source iterates over a table is not fixed; here it is that of the list.
pub mod Listing
use mathlib.Core.Path.{subst}
use clawdchat.Base.{
  String, ◌≡◌, refl, ite, if_pos, if_neg, Bool, Option, none, some, List, [], ◌∷◌, arith, dec_eq,
  is_some, contains, if◌then◌else◌, false, or_else, ◌&&◌, ◌∙◌, ap,
}

pub record Map {ℓ} (V : Type ℓ) : Type ℓ where
  entries : List (String × V)

module _ {ℓ} {V : Type ℓ} where
  unfoldable find : List (String × V) → String → Option V
  find [] j = none
  find ((k, v) ∷ es) j = ite (dec_eq k j) (some v) (find es j)

  unfoldable write : List (String × V) → String → V → List (String × V)
  write [] k v = (k, v) ∷ []
  write ((j, w) ∷ es) k v =
      let rest = write es k v in ite (dec_eq j k) ((k, v) ∷ es) ((j, w) ∷ rest)

  drop : List (String × V) → String → List (String × V)
  drop [] k = []
  drop ((j, w) ∷ es) k = let rest = drop es k in ite (dec_eq j k) rest ((j, w) ∷ rest)

  unfoldable pub empty : Map V
  empty = record { entries = [] }

  unfoldable pub get : Map V → String → Option V
  unfolding find
  get m k = find m.entries k

  unfoldable pub contains_key : Map V → String → Bool
  contains_key m k = is_some (get m k)

  unfoldable pub insert : Map V → String → V → Map V
  unfolding write
  insert m k v = record { entries = write m.entries k v }

  unfoldable pub remove : Map V → String → Map V
  unfolding drop
  remove m k = record { entries = drop m.entries k }

  -- `get_mut`: the entry is changed in place, and nothing happens where there is none.
  change : Option V → Map V → String → (V → V) → Map V
  change none m k f = m
  change (some v) m k f = insert m k (f v)

  unfoldable pub update : Map V → String → (V → V) → Map V
  unfolding change
  update m k f = change (get m k) m k f

  abbrev pub passes : (V → Bool) → Option V → Bool
  passes p none = false
  passes p (some v) = p v

  -- Iteration goes through the keys, and reads the value that the table has for each.
  matching : (String → Bool) → List (String × V) → List String
  matching test [] = []
  matching test ((j, v) ∷ es) = let rest = matching test es in if test j then j ∷ rest else rest

  -- `iter().filter(|entry| p(entry.value())).map(|entry| entry.key())`.
  unfoldable pub keys_where : (V → Bool) → Map V → List String
  unfolding matching get
  keys_where p m = matching (λ k. passes p (get m k)) m.entries

  unfoldable reads : (String → Option V) → List (String × V) → List V
  reads value [] = []
  reads value ((j, v) ∷ es) = or_else (value j) v ∷ reads value es

  -- `iter().map(|entry| entry.value())`.
  unfoldable pub values : Map V → List V
  unfolding reads get
  values m = reads (get m) m.entries

  unfoldable kept : (String → Bool) → List (String × V) → List (String × V)
  kept test [] = []
  kept test ((j, v) ∷ es) = let rest = kept test es in if test j then (j, v) ∷ rest else rest

  unfoldable pub retain : (V → Bool) → Map V → Map V
  unfolding kept get
  retain p m = record { entries = kept (λ k. passes p (get m k)) m.entries }

  unfoldable each : (V → V) → List (String × V) → List (String × V)
  each f [] = []
  each f ((j, v) ∷ es) = (j, f v) ∷ each f es

  -- `iter_mut()`: every value is changed in place.
  unfoldable pub update_all : (V → V) → Map V → Map V
  unfolding each
  update_all f m = record { entries = each f m.entries }

  find-write :
      (es : List (String × V)) (k : String) (v : V) (j : String)
      → find (write es k v) j ≡ ite (dec_eq k j) (some v) (find es j)
  unfolding find write
  find-write [] k v j = refl
  find-write ((i, w) ∷ es) k v j = ground (arith, find-write es k v j)

  find-drop :
      (es : List (String × V)) (k j : String)
      → find (drop es k) j ≡ ite (dec_eq k j) none (find es j)
  unfolding find drop
  find-drop [] k j = ground arith
  find-drop ((i, w) ∷ es) k j = ground (arith, find-drop es k j)

  pub get-insert :
      (m : Map V) (k : String) (v : V) (j : String)
      → get (insert m k v) j ≡ ite (dec_eq k j) (some v) (get m j)
  unfolding get insert
  get-insert m k v j = find-write m.entries k v j

  pub get-remove : (m : Map V) (k j : String) → get (remove m k) j ≡ ite (dec_eq k j) none (get m j)
  unfolding get remove
  get-remove m k j = find-drop m.entries k j

  -- What `update` makes of the value that it finds.
  abbrev pub changed : (V → V) → Option V → Option V
  changed f none = none
  changed f (some v) = some (f v)

  get-change :
      (o : Option V) (m : Map V) (k : String) (f : V → V) (j : String)
      → get m k ≡ o
      → get (change o m k f) j ≡ ite (dec_eq k j) (changed f o) (get m j)
  unfolding change
  get-change none m k f j e = elim (dec_eq k j) [
    | yes p ↦ rw (if_pos _ p) (subst (λ i. get m i ≡ none) p e)
    | no n ↦ rw (if_neg _ n) refl
  ]
  get-change (some v) m k f j e = get-insert m k (f v) j

  pub get-update :
      (m : Map V) (k : String) (f : V → V) (j : String)
      → get (update m k f) j ≡ ite (dec_eq k j) (changed f (get m k)) (get m j)
  unfolding update
  get-update m k f j = get-change (get m k) m k f j refl

module _ {ℓ} {V : Type ℓ} (f : V → V) where
  find-each : (es : List (String × V)) (k : String) → find (each f es) k ≡ changed f (find es k)
  unfolding find each
  find-each [] k = refl
  find-each ((j, v) ∷ es) k = ground (arith, find-each es k)

  pub get-update_all : (m : Map V) (k : String) → get (update_all f m) k ≡ changed f (get m k)
  unfolding get update_all
  get-update_all m k = find-each m.entries k

module _ {ℓ} {V : Type ℓ} (test : String → Bool) (k : String) where
  contains-matching :
      (es : List (String × V)) → contains (matching test es) k ≡ (is_some (find es k) && test k)
  unfolding find matching contains
  contains-matching [] = refl
  contains-matching ((j, w) ∷ es) = ground (arith, contains-matching es, λ (e : j ≡ k). ap test e)

  find-kept :
      (es : List (String × V)) → find (kept test es) k ≡ (if test k then find es k else none)
  unfolding find kept
  find-kept [] = ground arith
  find-kept ((j, w) ∷ es) = ground (arith, find-kept es, λ (e : j ≡ k). ap test e)

module _ {ℓ} {V : Type ℓ} (p : V → Bool) where
  visible : (o : Option V) → (is_some o && passes p o) ≡ passes p o
  visible none = refl
  visible (some v) = refl

  -- The keys of the entries that pass the test are listed, and no others.
  pub contains-keys_where :
      (m : Map V) (k : String) → contains (keys_where p m) k ≡ passes p (get m k)
  unfolding get keys_where
  contains-keys_where m k =
      contains-matching (λ j. passes p (get m j)) k m.entries ∙ visible (find m.entries k)

  -- What is left of a value that is tested.
  abbrev pub passing : Option V → Option V
  passing none = none
  passing (some v) = if p v then some v else none

  tested : (o : Option V) → (if passes p o then o else none) ≡ passing o
  tested none = refl
  tested (some v) = refl

  pub get-retain : (m : Map V) (k : String) → get (retain p m) k ≡ passing (get m k)
  unfolding get retain
  get-retain m k = find-kept (λ j. passes p (get m j)) k m.entries ∙ tested (find m.entries k)

pub get-empty {ℓ} : {V : Type ℓ} (k : String) → get (empty {V = V}) k ≡ none
unfolding get empty find
get-empty k = refl

pub ruleset map_laws = (get-empty, get-insert, get-remove, get-update)
