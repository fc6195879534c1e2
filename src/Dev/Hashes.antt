-- ===== src/Dev/Hashes.antt =====
-- cmd/revelt/dev.go: watchFrontEndForChanges, collectHashes and hasFileChangedByHash. A hash is a number; the hash
-- function is a parameter.
use revelt.Base.{
  ℕ, ◌≡◌, ◌≢◌, ◌↔◌, inl, inr, refl, ap, ◌∙◌, Bool, false, [], ◌++◌, Option, none, some, Bool-cases,
  arith, if◌then◌else◌,
}
use revelt.Text.{Text, codes}
use revelt.Config.{assign, find}
use revelt.Dev.{
  Nodes, file, folder, no_nodes, more, Snapshot, is_skipped, collect, has_file_changed, Watcher,
  Sending, tick,
}
use revelt.Dev.Changes.{HasStamps, change_exact}
use revelt.Dev.Frontend.{match_client_asset}

-- A file with its contents, if they can be read.
mutual
  pub data Entry : Type 0 where
    asset : Text → Option Text → Entry
    dir : Text → Entries → Entry

  pub data Entries : Type 0 where
    end_of_folder : Entries
    entry : Entry → Entries → Entries

module _ (hash : Text → ℕ) where
  -- collectHashes
  unfoldable pub collect_hashes : (Text → Text → Bool) → Text → Entries → Snapshot → Snapshot
  unfolding is_skipped
  collect_hashes matches path end_of_folder found = found
  collect_hashes matches path (entry (asset name contents) entries) found =
      let rest = collect_hashes matches path entries in
      if matches (path ++ name) name
      then elim contents [
        | none ↦ rest found
        | some text ↦ rest (assign (path ++ name) (hash text) found)
      ]
      else rest found
  collect_hashes matches path (entry (dir name inner) entries) found =
      let below = collect_hashes matches (path ++ name ++ codes "/") inner found in
      let rest = collect_hashes matches path entries in
      if is_skipped name then rest found else rest below

  -- hasFileChangedByHash, with the snapshot that it returns.
  unfoldable pub has_file_changed_by_hash :
      (Text → Text → Bool) → Text → Entries → Snapshot → Bool × Snapshot
  unfolding collect_hashes has_file_changed
  has_file_changed_by_hash matches root entries prev =
      let current = collect_hashes matches root entries [] in
      (has_file_changed prev current, current)

  -- A tick of watchFrontEndForChanges in the folder `root`, at the time `now`,
  -- where `queued` restarts wait in the channel.
  unfoldable pub frontend_tick : Text → ℕ → ℕ → Entries → Watcher → Watcher × Sending
  unfolding collect_hashes match_client_asset tick
  frontend_tick root now queued entries =
      tick now queued (collect_hashes match_client_asset root entries [])

  -- The tree with the hashes for stamps.
  abbrev pub hashed_option : Option Text → Option ℕ
  hashed_option none = none
  hashed_option (some text) = some (hash text)

  abbrev pub hashed : Entries → Nodes
  hashed end_of_folder = no_nodes
  hashed (entry (asset name contents) entries) =
      more (file name (hashed_option contents)) (hashed entries)
  hashed (entry (dir name inner) entries) = more (folder name (hashed inner)) (hashed entries)

  -- What holds of collectMtimes carries over.
  collect_hashes-collect :
      (matches : Text → Text → Bool) (path : Text) (entries : Entries) (found : Snapshot)
      → collect_hashes matches path entries found ≡ collect matches path (hashed entries) found
  unfolding collect_hashes collect
  collect_hashes-collect matches path end_of_folder found = refl
  collect_hashes-collect matches path (entry (asset name none) entries) found =
      ground (arith, collect_hashes-collect matches path entries found)
  collect_hashes-collect matches path (entry (asset name (some text)) entries) found = ground (
    arith,
    collect_hashes-collect matches path entries found,
    collect_hashes-collect matches path entries (assign (path ++ name) (hash text) found),
  )
  collect_hashes-collect matches path (entry (dir name inner) entries) found =
      elim (Bool-cases (is_skipped name)) [
        | inl skips ↦
            rw (collect_hashes, collect, skips) (collect_hashes-collect matches path entries found)
        | inr walks ↦
            rw (collect_hashes, collect, walks)
              (collect_hashes-collect matches path entries
                  (collect_hashes matches (path ++ name ++ codes "/") inner found)
                ∙ ap (collect matches path (hashed entries))
                    (collect_hashes-collect matches (path ++ name ++ codes "/") inner found))
      ]

  HasStamps-hashed :
      (entries : Entries) → ((text : Text) → hash text ≢ 0) → HasStamps (hashed entries)
  HasStamps-hashed end_of_folder nonzero = tt
  HasStamps-hashed (entry (asset name none) entries) nonzero = HasStamps-hashed entries nonzero
  HasStamps-hashed (entry (asset name (some text)) entries) nonzero =
      (nonzero text, HasStamps-hashed entries nonzero)
  HasStamps-hashed (entry (dir name inner) entries) nonzero =
      (HasStamps-hashed inner nonzero, HasStamps-hashed entries nonzero)

  -- The frontend's watcher reports no change exactly where every path has the same hash in both
  -- walks, or none in both, where no hash is the zero value: a file that is written anew with the
  -- contents it had is no change.
  hash_change_exact :
      (matches : Text → Text → Bool) (root : Text) (old new : Entries)
      → ((text : Text) → hash text ≢ 0)
      → let prev = collect_hashes matches root old [] in
        let current = collect_hashes matches root new [] in
        ((has_file_changed_by_hash matches root new prev).0 ≡ false)
        ↔ ((path : Text) → find path prev ≡ find path current)
  unfolding has_file_changed_by_hash
  hash_change_exact matches root old new nonzero =
      rw (collect_hashes-collect matches root old [], collect_hashes-collect matches root new [])
        (change_exact matches root (hashed old) (hashed new) (HasStamps-hashed old nonzero)
          (HasStamps-hashed new nonzero))
