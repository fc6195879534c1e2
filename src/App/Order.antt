-- ===== src/App/Order.antt =====
-- app.go: the order of the middleware.
use revelt.Base.{
  ℕ, zero, suc, ◌≡◌, refl, sym, ap, ◌∙◌, List, [], ◌∷◌, ◌++◌, some, length, get_elem?, arith, take,
  ◌≤◌, ◌<◌,
}
use mathlib.Core.List.{append_assoc, append-nil}
use mathlib.Core.Option.{some-injective}
use revelt.Text.{Text}
use revelt.Http.{Action}
use revelt.App.{AppOptions, AppOption, default_options, configure, apply_chain, root_handler}

module _ (H : Type 0) where
  -- The first middleware around the second, and so on, around the handler.
  abbrev pub around : List (H → H) → H → H
  around [] root = root
  around (mw ∷ mws) root = mw (around mws root)

  take-suc :
      (xs : List (H → H)) (i : ℕ) (x : H → H)
      → get_elem? xs i ≡ some x
      → take (suc i) xs ≡ take i xs ++ x ∷ []
  take-suc [] i x h = ground arith
  take-suc (y ∷ xs) zero x h = ap (λ z. z ∷ []) (some-injective _ _ h)
  take-suc (y ∷ xs) (suc i) x h = ap (◌∷◌ y) (take-suc xs i x h)

  take-length : (xs : List (H → H)) → take (length xs) xs ≡ xs
  take-length [] = refl
  take-length (x ∷ xs) = ap (◌∷◌ x) (take-length xs)

  get_elem?-inside :
      (xs : List (H → H)) (i : ℕ) → i < length xs → (x : H → H) × (get_elem? xs i ≡ some x)
  get_elem?-inside [] i h = absurd (omega arith)
  get_elem?-inside (x ∷ xs) zero h = (x, refl)
  get_elem?-inside (x ∷ xs) (suc i) h = get_elem?-inside xs i (omega arith)

  around-snoc :
      (xs : List (H → H)) (x : H → H) (root : H) → around (xs ++ x ∷ []) root ≡ around xs (x root)
  around-snoc [] x root = refl
  around-snoc (y ∷ xs) x root = ap y (around-snoc xs x root)

  apply_chain-suc :
      (i : ℕ) (mws : List (H → H)) (mw : H → H) (root : H)
      → get_elem? mws i ≡ some mw
      → apply_chain H (suc i) mws root ≡ apply_chain H i mws (mw root)
  unfolding apply_chain
  apply_chain-suc i mws mw root here = rw (apply_chain, here) refl

  apply_chain-zero : (mws : List (H → H)) (root : H) → apply_chain H zero mws root ≡ root
  unfolding apply_chain
  apply_chain-zero mws root = refl

  -- The loop counts down, so each middleware goes around what the later ones have made.
  apply_chain-around :
      (i : ℕ) (mws : List (H → H)) (root : H)
      → i ≤ length mws
      → apply_chain H i mws root ≡ around (take i mws) root
  apply_chain-around zero mws root h = apply_chain-zero mws root
  apply_chain-around (suc i) mws root h =
      let (mw, here) = get_elem?-inside mws i (omega arith) in
      rw
        (
          apply_chain-suc i mws mw root here,
          take-suc mws i mw here,
          around-snoc (take i mws) mw root,
        )
        (apply_chain-around i mws (mw root) (omega arith))

  -- The middleware that a list of options adds, in order: each option adds its own to what is there.
  abbrev pub Adding : List (AppOption H) → List (H → H) → Type 0
  Adding [] ms = ms ≡ []
  Adding (opt ∷ opts) ms =
      (own : List (H → H)) × (rest : List (H → H)) × ((o : AppOptions H)
        → (opt o).middleware ≡ o.middleware ++ own)
      × Adding opts rest
      × (ms ≡ own ++ rest)

  configure-Adding :
      (opts : List (AppOption H)) (ms : List (H → H)) (o : AppOptions H)
      → Adding opts ms
      → (configure H opts o).middleware ≡ o.middleware ++ ms
  unfolding configure
  configure-Adding [] ms o none_added = rw (none_added) (sym (append-nil o.middleware))
  configure-Adding (opt ∷ opts) ms o (own, rest, adds, others, both) = rw (both) (
      configure-Adding opts rest (opt o) others
      ∙ ap (λ xs. xs ++ rest) (adds o)
      ∙ append_assoc o.middleware own rest)

  -- The handler of the server is the mux inside all the middleware that the options add: the first
  -- one declared is the outermost, over all the options.
  pub middleware_order :
      (opts : List (AppOption H)) (ms : List (H → H)) (shutdown_timeout : ℕ)
      (err_handler : Text → List Action) (mux : H)
      → Adding opts ms
      → (root_handler H (configure H opts (default_options H shutdown_timeout err_handler)) mux)
        ≡ around ms mux
  unfolding root_handler
  middleware_order opts ms shutdown_timeout err_handler mux adding =
      rw (configure-Adding opts ms (default_options H shutdown_timeout err_handler) adding) (
        apply_chain-around (length ms) ms mux (omega arith)
        ∙ ap (λ xs. around xs mux) (take-length ms))
