-- ===== src/Config/Discovery.antt =====
-- config.go: discoverComponentModes.
use mathlib.Core.List.{Memᴰ}
use mathlib.Core.Option.{some-injective}
use mathlib.Core.Path.{subst, subst₂}
use revelt.Base.{
  ◌≡◌, refl, sym, ap, ◌∙◌, ◌⊎◌, inl, inr, true, false, List, [], ◌∷◌, none, some, arith,
  if◌then◌else◌, Option-cases, Bool-cases,
}
use revelt.Text.{Text, text_eq}
use revelt.Text.Laws.{text_eq→eq, text_eq_refl}
use revelt.Config.{
  Mode, Modes, Entry, Fault, Result, ok, err, read_mode_annotation, ext, is_component_ext, relative,
  trim_suffix, assign, find, visit, visit_file, visit_source, discover,
}

pub find-assign {ℓ} :
    {V : Type ℓ} (k j : Text) (v : V) (m : List (Text × V))
    → find j (assign k v m) ≡ (if text_eq k j then some v else find j m)
unfolding find assign
find-assign k j v [] = refl
find-assign k j v ((i, w) ∷ m) = ground (
  arith,
  text_eq→eq i k,
  text_eq→eq k j,
  text_eq→eq i j,
  text_eq_refl j,
  text_eq_refl k,
  find-assign k j v m,
)

-- The entry is a component source below the root, found under this key with this mode.
pub record Describes (dir : Text) (e : Entry) (key : Text) (m : Mode) : Type 0 where
  pub is_file : e.is_dir ≡ false
  pub walked : e.fault ≡ none
  pub component : is_component_ext (ext e.name) ≡ true
  pub stem : (rel : Text) × (relative dir e.path ≡ some rel) × (key ≡ trim_suffix (ext e.name) rel)
  pub annotated : read_mode_annotation e.source ≡ ok m

-- What one visit did to the map.
abbrev Visited : Text → Entry → Modes → Modes → Type 0
Visited dir e modes modes' =
    (modes' ≡ modes)
    ⊎ ((key : Text) × (m : Mode) × Describes dir e key m × (modes' ≡ assign key m modes))

Result-cases : {A : Type 0} (r : Result A) → ((a : A) × (r ≡ ok a)) ⊎ ((x : Fault) × (r ≡ err x))
Result-cases (ok a) = inl (a, refl)
Result-cases (err x) = inr (x, refl)

visit_source-Visited :
    (dir : Text) (e : Entry) (modes : Modes) {modes' : Modes}
    → e.is_dir ≡ false
    → e.fault ≡ none
    → is_component_ext (ext e.name) ≡ true
    → visit_source dir e modes ≡ ok modes'
    → Visited dir e modes modes'
unfolding visit_source
visit_source-Visited dir e modes file walked comp p = elim (Option-cases (relative dir e.path)) [
  | inl none_rel ↦ absurd (ground arith)
  | inr (rel, some_rel) ↦ elim (Result-cases (read_mode_annotation e.source)) [
    | inl (m, read) ↦ inr (
      trim_suffix (ext e.name) rel,
      m,
      record {
        is_file = file;
        walked = walked;
        component = comp;
        stem = (rel, some_rel, refl);
        annotated = read;
      },
      ground arith,
    )
    | inr (x, read) ↦ absurd (ground arith)
  ]
]

visit-Visited :
    (dir : Text) (e : Entry) (modes : Modes) {modes' : Modes}
    → visit dir e modes ≡ ok modes'
    → Visited dir e modes modes'
unfolding visit visit_file
visit-Visited dir e modes p = elim (Option-cases e.fault) [
  | inr (x, faulty) ↦ inl (ground arith)
  | inl walked ↦ elim (Bool-cases e.is_dir) [
    | inl folder ↦ inl (ground arith)
    | inr file ↦ elim (Bool-cases (is_component_ext (ext e.name))) [
      | inr other_ext ↦ inl (ground arith)
      | inl comp ↦ visit_source-Visited dir e modes file walked comp (ground arith)
    ]
  ]
]

-- Conversely, a component source is entered into the map.
pub visit-Describes :
    (dir : Text) (e : Entry) (modes : Modes) {key : Text} {m : Mode}
    → Describes dir e key m
    → visit dir e modes ≡ ok (assign key m modes)
unfolding visit visit_file visit_source
visit-Describes dir e modes d =
    let (rel, below, stem) = d.stem in
    rw (d.walked, visit)
      (rw d.is_file
        (rw d.component (rw (below, visit_source) (rw (d.annotated, visit_source) (rw stem)))))

-- What `find` gives in the map that the rest of the walk makes.
Origin : Text → List Entry → Modes → Text → Mode → Type 0
Origin dir es modes key m =
    (find key modes ≡ some m) ⊎ ((e : Entry) × Memᴰ e es × Describes dir e key m)

discover-Origin :
    (dir : Text) (es : List Entry) (modes : Modes) {modes' : Modes} (key : Text) (m : Mode)
    → discover dir es modes ≡ ok modes'
    → find key modes' ≡ some m
    → Origin dir es modes key m
unfolding discover Origin
discover-Origin dir [] modes key m p f = inl (ground arith)
discover-Origin dir (e ∷ es) modes key m p f = elim (Result-cases (visit dir e modes)) [
  | inr (x, bad) ↦ absurd (ground arith)
  | inl (next, good) ↦ elim (discover-Origin dir es next key m (ground arith) f) [
    | inr (e', mem, d) ↦ inr (e', Memᴰ.tail mem, d)
    | inl here ↦ elim (visit-Visited dir e modes good) [
      | inl same ↦ inl (ap (find key) (sym same) ∙ here)
      | inr (k, m', d, grown) ↦ elim (Bool-cases (text_eq k key)) [
        | inr miss ↦
            inl (sym (ap (find key) grown ∙ find-assign k key m' modes ∙ rw miss refl) ∙ here)
        | inl hit ↦ inr (
          e,
          Memᴰ.head refl,
          subst₂ (Describes dir e) (text_eq→eq k key hit)
              (some-injective _ _
                (sym (ap (find key) grown ∙ find-assign k key m' modes ∙ rw hit refl) ∙ here))
              d,
        )
      ]
    ]
  ]
]

find-grows :
    (dir : Text) (es : List Entry) (modes : Modes) {modes' : Modes} (key : Text) (m : Mode)
    → discover dir es modes ≡ ok modes'
    → find key modes ≡ some m
    → (m' : Mode) × (find key modes' ≡ some m')
unfolding discover
find-grows dir [] modes key m p f = (m, ground arith)
find-grows dir (e ∷ es) modes key m p f = elim (Result-cases (visit dir e modes)) [
  | inr (x, bad) ↦ absurd (ground arith)
  | inl (next, good) ↦ elim (visit-Visited dir e modes good) [
    | inl same ↦ find-grows dir es next key m (ground arith) (ap (find key) same ∙ f)
    | inr (k, m', d, grown) ↦ elim (Bool-cases (text_eq k key)) [
      | inl hit ↦
          find-grows dir es next key m' (ground arith)
            (ap (find key) grown ∙ find-assign k key m' modes ∙ rw hit refl)
      | inr miss ↦
          find-grows dir es next key m (ground arith)
            (ap (find key) grown ∙ find-assign k key m' modes ∙ rw miss f)
    ]
  ]
]

discover-finds :
    (dir : Text) {e : Entry} (es : List Entry) (modes : Modes) {modes' : Modes} (key : Text)
    (m : Mode)
    → discover dir es modes ≡ ok modes'
    → Memᴰ e es
    → Describes dir e key m
    → (m' : Mode) × (find key modes' ≡ some m')
unfolding discover
discover-finds dir es modes key m p (Memᴰ.head {x = x} {xs = xs} same) d =
    let entered = visit-Describes dir x modes (subst (λ e. Describes dir e key m) same d) in
    find-grows dir xs (assign key m modes) key m (sym (rw (entered, discover) refl) ∙ p)
      (find-assign key key m modes ∙ rw (text_eq_refl key) refl)
discover-finds dir es modes key m p (Memᴰ.tail {x = x} {xs = xs} mem) d =
    elim (Result-cases (visit dir x modes)) [
      | inl (next, good) ↦ discover-finds dir xs next key m (ground arith) mem d
      | inr (x, bad) ↦ absurd (ground arith)
    ]

-- The map that discoverComponentModes returns has a key just where a component source among the
-- entries of the walk has it, and the mode found under a key is the one annotated in such a source.
pub discover_exact :
    (dir : Text) (es : List Entry) (modes : Modes)
    → discover dir es [] ≡ ok modes
    → ((key : Text) (m : Mode)
        → find key modes ≡ some m
        → (e : Entry) × Memᴰ e es × Describes dir e key m)
      × ((key : Text) (m : Mode) (e : Entry)
          → Memᴰ e es
          → Describes dir e key m
          → (m' : Mode) × (find key modes ≡ some m'))
unfolding Origin find
discover_exact dir es modes p = (
  λ key m f. elim (discover-Origin dir es [] key m p f) [
    | inl old ↦ absurd (ground arith)
    | inr found ↦ found
  ],
  λ key m e mem d. discover-finds dir es [] key m p mem d,
)
