-- ===== src/Dev/Changes.antt =====
-- cmd/revelt/dev.go: hasFileChanged and hasFileChangedByHash miss no change and report no other.
use revelt.Base.{
  ℕ, ◌≡◌, ◌≢◌, ◌↔◌, inl, inr, refl, sym, ap, ◌∙◌, Bool, true, false, ◌==◌, ==_iff, [], ◌∷◌, ◌++◌,
  none, some, length, Bool-cases, Option-cases, arith,
}
use revelt.Text.{Text, codes, text_eq}
use revelt.Text.Laws.{text_eq→eq}
use revelt.Text.Maps.{
  Absent, Distinct, remove, length-remove, find-remove, find-Absent, find_same, find_first,
  find_later, length_same, assign-Distinct, text_ne_flip,
}
use revelt.Config.{assign, find}
use revelt.Dev.{
  Nodes, file, folder, no_nodes, more, Snapshot, is_skipped, collect, all_same, has_file_changed,
}

-- No stamp is the zero value.
abbrev pub IsStamped : Snapshot → Type 0
IsStamped [] = Unit {0}
IsStamped ((path, t) ∷ m) = (t ≢ 0) × IsStamped m

-- Every stamp of the entries is found in `prev`.
all_same-finds :
    (prev : Snapshot) (path : Text) (t : ℕ) (m : Snapshot)
    → t ≢ 0
    → all_same prev ((path, t) ∷ m) ≡ true
    → (find path prev ≡ some t) × (all_same prev m ≡ true)
unfolding all_same
all_same-finds prev path t m nonzero h = elim (Option-cases (find path prev)) [
  | inl missing ↦ absurd (ground arith)
  | inr (s, here) ↦ ground arith
]

all_same-remove :
    (path : Text) (prev m : Snapshot)
    → Absent path m
    → all_same prev m ≡ true
    → all_same (remove path prev) m ≡ true
unfolding all_same
all_same-remove path prev [] absent h = refl
all_same-remove path prev ((k, t) ∷ m) absent h = ground (
  arith,
  find-remove path k prev (text_ne_flip k path absent.0),
  all_same-remove path prev m absent.1,
)

-- An unchanged snapshot has the same stamp for every path.
unchanged_same :
    (prev current : Snapshot)
    → Distinct current
    → IsStamped current
    → length current ≡ length prev
    → all_same prev current ≡ true
    → (path : Text) → find path prev ≡ find path current
unchanged_same [] [] distinct stamped size h path = refl
unchanged_same (x ∷ prev) [] distinct stamped size h path = absurd (ground arith)
unchanged_same prev ((k, t) ∷ current) distinct stamped size h path =
    let (here, rest) = all_same-finds prev k t current stamped.0 h in
    find_same k t prev current here
      (unchanged_same (remove k prev) current distinct.1 stamped.1
        (omega (arith, size, length-remove k t prev here))
        (all_same-remove k prev current distinct.0 rest))
      path

later-finds :
    (k : Text) (t : ℕ) (path : Text) (s : ℕ) (current : Snapshot)
    → Absent k current
    → find path current ≡ some s
    → find path ((k, t) ∷ current) ≡ some s
later-finds k t path s current absent here = elim (Bool-cases (text_eq k path)) [
  | inr ne ↦ find_later k path t current ne ∙ here
  | inl same ↦
      let lost = find-Absent k current absent in
      let found = ap (λ j. find j current) (text_eq→eq k path same) ∙ here in absurd (ground arith)
]

-- The entries of a snapshot are found in any other that has its stamps.
same_all_same :
    (prev current : Snapshot)
    → Distinct current
    → ((path : Text) (t : ℕ) → find path current ≡ some t → find path prev ≡ some t)
    → all_same prev current ≡ true
unfolding all_same
same_all_same prev [] distinct same = refl
same_all_same prev ((k, t) ∷ current) distinct same = ground (
  arith,
  same k t (find_first k t current),
  same_all_same prev current distinct.1
      (λ path s here. same path s (later-finds k t path s current distinct.0 here)),
)

abbrev pub Proper : Snapshot → Type 0
Proper m = Distinct m × IsStamped m

assign-IsStamped :
    (path : Text) (t : ℕ) (m : Snapshot) → t ≢ 0 → IsStamped m → IsStamped (assign path t m)
unfolding assign
assign-IsStamped path t [] nonzero h = (nonzero, tt)
assign-IsStamped path t ((k, s) ∷ m) nonzero h = elim (Bool-cases (text_eq k path)) [
  | inl hit ↦ rw (assign, hit) (nonzero, h.1)
  | inr miss ↦ rw (assign, miss) (h.0, assign-IsStamped path t m nonzero h.1)
]

-- No file has the zero value for its stamp.
abbrev pub HasStamps : Nodes → Type 0
HasStamps no_nodes = Unit {0}
HasStamps (more (file name none) nodes) = HasStamps nodes
HasStamps (more (file name (some t)) nodes) = (t ≢ 0) × HasStamps nodes
HasStamps (more (folder name inner) nodes) = HasStamps inner × HasStamps nodes

collect-Proper :
    (matches : Text → Text → Bool) (path : Text) (nodes : Nodes) (found : Snapshot)
    → HasStamps nodes
    → Proper found
    → Proper (collect matches path nodes found)
unfolding collect
collect-Proper matches path no_nodes found stamps h = h
collect-Proper matches path (more (file name none) nodes) found stamps h =
    let rest = collect-Proper matches path nodes found stamps h in
    elim (Bool-cases (matches (path ++ name) name)) [
      | inl hit ↦ rw (collect, hit) rest
      | inr miss ↦ rw (collect, miss) rest
    ]
collect-Proper matches path (more (file name (some t)) nodes) found stamps h =
    elim (Bool-cases (matches (path ++ name) name)) [
      | inl hit ↦
          rw (collect, hit)
            (collect-Proper matches path nodes (assign (path ++ name) t found) stamps.1 (
              assign-Distinct (path ++ name) t found h.0,
              assign-IsStamped (path ++ name) t found stamps.0 h.1,
            ))
      | inr miss ↦ rw (collect, miss) (collect-Proper matches path nodes found stamps.1 h)
    ]
collect-Proper matches path (more (folder name inner) nodes) found stamps h =
    elim (Bool-cases (is_skipped name)) [
      | inl skips ↦ rw (collect, skips) (collect-Proper matches path nodes found stamps.1 h)
      | inr walks ↦
          rw (collect, walks)
            (collect-Proper matches path nodes
              (collect matches (path ++ name ++ codes "/") inner found) stamps.1
              (collect-Proper matches (path ++ name ++ codes "/") inner found stamps.0 h))
    ]

reported_false :
    (prev current : Snapshot)
    → (length current == length prev) ≡ true
    → all_same prev current ≡ true
    → has_file_changed prev current ≡ false
unfolding has_file_changed
reported_false prev current size same = rw (size, same) refl

false-unreported :
    (prev current : Snapshot)
    → has_file_changed prev current ≡ false
    → ((length current == length prev) ≡ true) × (all_same prev current ≡ true)
unfolding has_file_changed
false-unreported prev current h = ground arith

has_file_changed_iff :
    (prev current : Snapshot)
    → Proper prev
    → Proper current
    → (has_file_changed prev current ≡ false) ↔ ((path : Text) → find path prev ≡ find path current)
has_file_changed_iff prev current proper proper' = (
  (λ h.
      let (size, same) = false-unreported prev current h in
      unchanged_same prev current proper'.0 proper'.1
        ((==_iff (length current) (length prev)).0 size) same),
  (λ same.
      reported_false prev current
        ((==_iff (length current) (length prev)).1
          (sym (length_same prev current proper.0 proper'.0 same)))
        (same_all_same prev current proper'.0 (λ path t here. same path ∙ here))),
)

-- A watcher reports no change exactly where every path has the same stamp in both walks, or none
-- in both: for trees of files whose stamps are not the zero value, whatever files are matched.
pub change_exact :
    (matches : Text → Text → Bool) (root : Text) (old new : Nodes)
    → HasStamps old
    → HasStamps new
    → (has_file_changed (collect matches root old []) (collect matches root new []) ≡ false) ↔ (
        (path : Text)
        → find path (collect matches root old []) ≡ find path (collect matches root new []))
change_exact matches root old new stamps stamps' =
    has_file_changed_iff (collect matches root old []) (collect matches root new [])
      (collect-Proper matches root old [] stamps (tt, tt))
      (collect-Proper matches root new [] stamps' (tt, tt))
