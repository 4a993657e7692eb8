-- ===== src/Map/Listing.antt =====
-- What a table's listing becomes when an entry is added, when entries are dropped by a test and when
-- all are changed.
use clawdchat.Base.{
  String, ◌≡◌, refl, ◌∙◌, ite, Bool, true, Option, none, some, List, [], ◌∷◌, ◌++◌, arith, dec_eq,
  is_some, or_else, keep, map, any, ap, if◌then◌else◌,
}
use clawdchat.Base.Sorting.{place, sort}
use clawdchat.Map.{
  Map, find, write, reads, kept, each, get, insert, values, retain, update_all, passes, passing,
  changed, get-insert, get-retain, get-update_all,
}

module _ {ℓ} {V : Type ℓ} where
  -- Every entry's key is one that `value` knows.
  abbrev IsKnown : (String → Option V) → List (String × V) → Type 0
  IsKnown value [] = Unit {0}
  IsKnown value ((j, v) ∷ es) = (is_some (value j) ≡ true) × IsKnown value es

  IsKnown-cons :
      (es hs : List (String × V)) (j : String) (v : V)
      → IsKnown (find hs) es
      → IsKnown (find ((j, v) ∷ hs)) es
  unfolding find
  IsKnown-cons [] hs j v k = tt
  IsKnown-cons ((i, w) ∷ es) hs j v k = (ground (arith, k.0), IsKnown-cons es hs j v k.1)

  IsKnown-self : (es : List (String × V)) → IsKnown (find es) es
  unfolding find
  IsKnown-self [] = tt
  IsKnown-self ((j, v) ∷ es) = (ground arith, IsKnown-cons es es j v (IsKnown-self es))

  reads_same :
      (value other : String → Option V) (es : List (String × V))
      → ((j : String) → value j ≡ other j)
      → reads value es ≡ reads other es
  unfolding reads
  reads_same value other [] h = refl
  reads_same value other ((j, v) ∷ es) h = rw (h j, reads_same value other es h) refl

  reads-write :
      (value : String → Option V) (es : List (String × V)) (k : String) (v : V)
      → find es k ≡ none
      → IsKnown value es
      → reads (λ j. ite (dec_eq k j) (some v) (value j)) (write es k v) ≡ reads value es ++ v ∷ []
  unfolding find write reads
  reads-write value [] k v h known = ground arith
  reads-write value ((j, w) ∷ es) k v h known = elim (dec_eq j k) [
    | yes e ↦ ground arith
    | no n ↦ ground (arith, reads-write value es k v (ground arith) known.1)
  ]

  -- A new key's entry comes last.
  pub values-insert :
      (m : Map V) (k : String) (v : V) → get m k ≡ none → values (insert m k v) ≡ values m ++ v ∷ []
  unfolding get insert values
  values-insert m k v h =
      reads_same (get (insert m k v)) (λ j. ite (dec_eq k j) (some v) (get m j))
        (write m.entries k v) (get-insert m k v)
      ∙ reads-write (find m.entries) m.entries k v h (IsKnown-self m.entries)

module _ {ℓ} {V : Type ℓ} (f : V → V) where
  changed_or : (o : Option V) (v : V) → or_else (changed f o) (f v) ≡ f (or_else o v)
  changed_or none v = refl
  changed_or (some w) v = refl

  reads-each :
      (value : String → Option V) (es : List (String × V))
      → reads (λ j. changed f (value j)) (each f es) ≡ map f (reads value es)
  unfolding reads each
  reads-each value [] = refl
  reads-each value ((j, v) ∷ es) = rw (changed_or (value j) v, reads-each value es) refl

  pub values-update_all : (m : Map V) → values (update_all f m) ≡ map f (values m)
  unfolding values update_all
  values-update_all m =
      reads_same (get (update_all f m)) (λ j. changed f (get m j)) (each f m.entries)
        (get-update_all f m)
      ∙ reads-each (get m) m.entries

module _ {ℓ} {V : Type ℓ} (p : V → Bool) where
  read_kept :
      (o : Option V) (v : V) (rest more : List V)
      → is_some o ≡ true
      → more ≡ keep p rest
      → (if passes p o then or_else (passing p o) v ∷ more else more) ≡ keep p (or_else o v ∷ rest)
  unfolding keep
  read_kept none v rest more h e = ground arith
  read_kept (some w) v rest more h e = ground (arith, e)

  reads-kept :
      (value : String → Option V) (es : List (String × V))
      → IsKnown value es
      → reads (λ j. passing p (value j)) (kept (λ j. passes p (value j)) es)
        ≡ keep p (reads value es)
  unfolding reads kept keep
  reads-kept value [] known = refl
  reads-kept value ((j, v) ∷ es) known = ground (
    arith,
    read_kept (value j) v (reads value es)
        (reads (λ i. passing p (value i)) (kept (λ i. passes p (value i)) es)) known.0
        (reads-kept value es known.1),
  )

  pub values-retain : (m : Map V) → values (retain p m) ≡ keep p (values m)
  unfolding values retain get
  values-retain m =
      reads_same (get (retain p m)) (λ j. passing p (get m j))
        (kept (λ j. passes p (get m j)) m.entries) (get-retain p m)
      ∙ reads-kept (get m) m.entries (IsKnown-self m.entries)

module _ {ℓ ℓ'} {V : Type ℓ} (P : V → Type ℓ') where
  -- `P` holds of every element.
  abbrev pub All : List V → Type ℓ'
  All [] = Unit
  All (x ∷ xs) = P x × All xs

  pub All-place : (le : V → V → Bool) (x : V) (xs : List V) → P x → All xs → All (place le x xs)
  unfolding place
  All-place le x [] p h = (p, tt)
  All-place le x (y ∷ ys) p h = ground (arith, All-place le x ys p h.1)

  pub All-sort : (le : V → V → Bool) (xs : List V) → All xs → All (sort le xs)
  unfolding sort
  All-sort le [] h = tt
  All-sort le (x ∷ xs) h = All-place le x (sort le xs) h.0 (All-sort le xs h.1)

  pub All-keep : (p : V → Bool) (xs : List V) → All xs → All (keep p xs)
  unfolding keep
  All-keep p [] h = tt
  All-keep p (x ∷ xs) h = ground (arith, All-keep p xs h.1)

  All-reads :
      (value : String → Option V) (es : List (String × V))
      → ((k : String) (v : V) → value k ≡ some v → P v)
      → IsKnown value es
      → All (reads value es)
  unfolding reads
  All-reads value [] h known = tt
  All-reads value ((j, v) ∷ es) h known =
      (read_all (value j) v (h j) known.0, All-reads value es h known.1)
    where
      read_all :
          (o : Option V) (v : V) → ((w : V) → o ≡ some w → P w) → is_some o ≡ true → P (or_else o v)
      read_all none v h is = ground (arith, is)
      read_all (some w) v h is = h w refl

  -- What holds of the value of every key holds of every value that is listed.
  pub All-values : (m : Map V) → ((k : String) (v : V) → get m k ≡ some v → P v) → All (values m)
  unfolding values get
  All-values m h = All-reads (get m) m.entries h (IsKnown-self m.entries)

module _ {ℓ} {V : Type ℓ} (p : V → Bool) where
  any-reads :
      (value : String → Option V) (es : List (String × V)) (k : String) (v : V)
      → is_some (find es k) ≡ true
      → value k ≡ some v
      → p v ≡ true
      → any p (reads value es) ≡ true
  unfolding find reads any
  any-reads value [] k v there e h = there
  any-reads value ((j, w) ∷ es) k v there e h = elim (dec_eq j k) [
    | yes q ↦ ground (arith, ap value q, e, h)
    | no n ↦ ground (arith, any-reads value es k v, there, e, h, n)
  ]

  -- A key's value is listed.
  pub any-values :
      (m : Map V) (k : String) (v : V) → get m k ≡ some v → p v ≡ true → any p (values m) ≡ true
  unfolding values get
  any-values m k v e h = any-reads (get m) m.entries k v (ground (arith, e)) e h
