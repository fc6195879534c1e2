-- ===== src/Text/Maps.antt =====
-- Maps from texts as association lists without repeated keys.
use mathlib.Core.Path.{subst}
use revelt.Base.{
  suc, ◌≡◌, ◌≢◌, inl, inr, refl, sym, ap, ◌∙◌, true, false, List, [], ◌∷◌, none, some, length,
  Bool-cases, arith, if◌then◌else◌,
}
use revelt.Text.{Text, text_eq}
use revelt.Text.Laws.{text_eq→eq, text_eq_refl}
use revelt.Config.{assign, find}

pub text_ne_flip : (s t : Text) → text_eq s t ≡ false → text_eq t s ≡ false
text_ne_flip s t ne = ground (arith, text_eq→eq t s, text_eq_refl s)

module _ {V : Type 0} where
  abbrev pub Absent : Text → List (Text × V) → Type 0
  Absent key [] = Unit {0}
  Absent key ((k, v) ∷ m) = (text_eq k key ≡ false) × Absent key m

  abbrev pub Distinct : List (Text × V) → Type 0
  Distinct [] = Unit {0}
  Distinct ((k, v) ∷ m) = Absent k m × Distinct m

  unfoldable pub remove : Text → List (Text × V) → List (Text × V)
  remove key [] = []
  remove key ((k, v) ∷ m) = let rest = remove key m in if text_eq k key then m else (k, v) ∷ rest

  pub find-Absent : (key : Text) (m : List (Text × V)) → Absent key m → find key m ≡ none
  unfolding find
  find-Absent key [] h = refl
  find-Absent key ((k, v) ∷ m) h = ground (arith, find-Absent key m h.1)

  remove-Absent :
      (key other : Text) (m : List (Text × V)) → Absent other m → Absent other (remove key m)
  unfolding remove
  remove-Absent key other [] h = tt
  remove-Absent key other ((k, v) ∷ m) h = elim (Bool-cases (text_eq k key)) [
    | inl hit ↦ rw (remove, hit) h.1
    | inr miss ↦ rw (remove, miss) (h.0, remove-Absent key other m h.1)
  ]

  pub remove-Distinct : (key : Text) (m : List (Text × V)) → Distinct m → Distinct (remove key m)
  unfolding remove
  remove-Distinct key [] h = tt
  remove-Distinct key ((k, v) ∷ m) h = elim (Bool-cases (text_eq k key)) [
    | inl hit ↦ rw (remove, hit) h.1
    | inr miss ↦ rw (remove, miss) (remove-Absent key k m h.0, remove-Distinct key m h.1)
  ]

  pub length-remove :
      (key : Text) (v : V) (m : List (Text × V))
      → find key m ≡ some v
      → suc (length (remove key m)) ≡ length m
  unfolding remove find
  length-remove key v [] h = ground arith
  length-remove key v ((k, w) ∷ m) h = ground (arith, length-remove key v m)

  pub find-remove :
      (key other : Text) (m : List (Text × V))
      → text_eq key other ≡ false
      → find other (remove key m) ≡ find other m
  unfolding remove find
  find-remove key other [] ne = refl
  find-remove key other ((k, v) ∷ m) ne = elim (Bool-cases (text_eq k key)) [
    | inl hit ↦ rw (hit, ap (λ j. text_eq j other) (text_eq→eq k key hit), ne) refl
    | inr miss ↦ ground (arith, find-remove key other m ne)
  ]

  Absent-text_eq :
      (key other : Text) (m : List (Text × V))
      → text_eq key other ≡ true
      → Absent key m
      → Absent other m
  Absent-text_eq key other m same h = subst (λ j. Absent j m) (text_eq→eq key other same) h

  pub find-remove_self :
      (key : Text) (m : List (Text × V)) → Distinct m → find key (remove key m) ≡ none
  unfolding remove find
  find-remove_self key [] h = refl
  find-remove_self key ((k, v) ∷ m) h = elim (Bool-cases (text_eq k key)) [
    | inl hit ↦ rw hit (find-Absent key m (Absent-text_eq k key m hit h.0))
    | inr miss ↦ ground (arith, find-remove_self key m h.1)
  ]

  pub assign-Absent :
      (key other : Text) (v : V) (m : List (Text × V))
      → text_eq key other ≡ false
      → Absent other m
      → Absent other (assign key v m)
  unfolding assign
  assign-Absent key other v [] ne h = (ne, tt)
  assign-Absent key other v ((k, w) ∷ m) ne h = elim (Bool-cases (text_eq k key)) [
    | inl hit ↦ rw (assign, hit) (ne, h.1)
    | inr miss ↦ rw (assign, miss) (h.0, assign-Absent key other v m ne h.1)
  ]

  pub assign-Distinct :
      (key : Text) (v : V) (m : List (Text × V)) → Distinct m → Distinct (assign key v m)
  unfolding assign
  assign-Distinct key v [] h = (tt, tt)
  assign-Distinct key v ((k, w) ∷ m) h = elim (Bool-cases (text_eq k key)) [
    | inl hit ↦ rw (assign, hit) (Absent-text_eq k key m hit h.0, h.1)
    | inr miss ↦
        rw (assign, miss)
          (assign-Absent key k v m (text_ne_flip k key miss) h.0, assign-Distinct key v m h.1)
  ]

  pub find_first : (k : Text) (v : V) (m : List (Text × V)) → find k ((k, v) ∷ m) ≡ some v
  unfolding find
  find_first k v m = rw (text_eq_refl k) refl

  pub find_later :
      (j k : Text) (v : V) (m : List (Text × V))
      → text_eq j k ≡ false
      → find k ((j, v) ∷ m) ≡ find k m
  unfolding find
  find_later j k v m ne = rw ne refl

  find_nil : (k : Text) → find {V = V} k [] ≡ none
  unfolding find
  find_nil k = refl

  not_some : (v : V) → some v ≢ none
  not_some v e = ground arith

  rest_same :
      (k : Text) (v : V) (m n : List (Text × V))
      → Distinct m
      → Distinct ((k, v) ∷ n)
      → ((key : Text) → find key m ≡ find key ((k, v) ∷ n))
      → (key : Text) → find key (remove k m) ≡ find key n
  rest_same k v m n dm dn same key = elim (Bool-cases (text_eq k key)) [
    | inl hit ↦
        subst (λ j. find j (remove k m) ≡ find j n) (text_eq→eq k key hit)
          (find-remove_self k m dm ∙ sym (find-Absent k n dn.0))
    | inr miss ↦ find-remove k key m miss ∙ (same key ∙ find_later k key v n miss)
  ]

  -- Maps with the same entries have the same size.
  pub length_same :
      (m n : List (Text × V))
      → Distinct m
      → Distinct n
      → ((key : Text) → find key m ≡ find key n)
      → length m ≡ length n
  length_same [] [] dm dn same = refl
  length_same ((k, v) ∷ m) [] dm dn same =
      absurd (not_some v (sym (find_first k v m) ∙ (same k ∙ find_nil k)))
  length_same m ((k, v) ∷ n) dm dn same =
      sym (length-remove k v m (same k ∙ find_first k v n))
      ∙ ap suc
          (length_same (remove k m) n (remove-Distinct k m dm) dn.1 (rest_same k v m n dm dn same))

  -- The same values are found behind an entry.
  pub find_same :
      (k : Text) (v : V) (m n : List (Text × V))
      → find k m ≡ some v
      → ((key : Text) → find key (remove k m) ≡ find key n)
      → (key : Text) → find key m ≡ find key ((k, v) ∷ n)
  find_same k v m n here same key = elim (Bool-cases (text_eq k key)) [
    | inl hit ↦
        subst (λ j. find j m ≡ find j ((k, v) ∷ n)) (text_eq→eq k key hit)
          (here ∙ sym (find_first k v n))
    | inr miss ↦ sym (find-remove k key m miss) ∙ (same key ∙ sym (find_later k key v n miss))
  ]
