-- ===== src/Middleware/Etag/Buffering.antt =====
-- middleware/etag/etag.go: the wrapper beside the response that the handler alone would give.
use revelt.Base.{
  ℕ, ◌≡◌, ◌≤◌, ◌≢◌, ◌⊎◌, inl, inr, refl, sym, ap, ◌∙◌, true, false, List, [], ◌∷◌, ◌++◌, All, arith,
  ◌==◌, Bool-cases,
}
use mathlib.Core.Path.{subst, subst₂}
use revelt.Text.{Text}
use revelt.Http.{
  Action, set_header, del_header, set_cookie, write_header, write, flush, Response, act, exec,
  blank, commit,
}
use revelt.Http.Exec.{commit_again, exec-append, exec_sent}
use revelt.Middleware.Gzip.Stream.{IsPlain}
use revelt.Middleware.Etag.{Writer, fresh, on_header, on_write, store, implied, wrap, wrap_all}

-- Every byte so far is in the buffer; the header has not been sent on.
pub record Buffered (w u : Response) (e : Writer) : Type 0 where
  pub is_ok : e.status ≡ 200
  pub wrote : e.wrote_header ≡ true
  pub status : w.status ≡ 200
  pub body : w.body ≡ e.buf
  pub fed : e.hashed ≡ e.buf
  pub unsent : u.status ≡ 0
  pub empty : u.body ≡ []

-- The plain response `w`, the response `u` under the wrapper `e`: nothing happened, all is
-- buffered, or all is passed through.
pub data Sim (w u : Response) (e : Writer) : Type 0 where
  untouched : e ≡ fresh → u ≡ w → w.status ≡ 0 → w.body ≡ [] → Sim w u e
  buffered : Buffered w u e → Sim w u e
  passed :
      u ≡ w → e.status ≢ 200 → e.wrote_header ≡ true → w.status ≢ 0 → w.status ≢ 200 → Sim w u e

-- A call that changes neither the status nor the body.
Sim-pass :
    (f : Response → Response) (w u : Response) (e : Writer)
    → ((x : Response) → ((f x).status ≡ x.status) × ((f x).body ≡ x.body))
    → Sim w u e
    → Sim (f w) (f u) e
Sim-pass f w u e keeps (untouched new same z b) =
    untouched new (ap f same) ((keeps w).0 ∙ z) ((keeps w).1 ∙ b)
Sim-pass f w u e keeps (buffered b) = buffered (record {
  is_ok = b.is_ok;
  wrote = b.wrote;
  fed = b.fed;
  status = (keeps w).0 ∙ b.status;
  body = (keeps w).1 ∙ b.body;
  unsent = (keeps u).0 ∙ b.unsent;
  empty = (keeps u).1 ∙ b.empty;
})
Sim-pass f w u e keeps (passed same ne wrote sent not_ok) =
    passed (ap f same) ne wrote (λ z. sent (sym (keeps w).0 ∙ z))
      (λ z. not_ok (sym (keeps w).0 ∙ z))

on_header_again : (code : ℕ) (e : Writer) → e.wrote_header ≡ true → on_header code e ≡ (e, [])
unfolding on_header
on_header_again code e wrote = simp wrote

on_header_other :
    (code : ℕ)
    → (code == 200) ≡ false
    → on_header code fresh
      ≡ (record fresh { wrote_header = true; status = code }, write_header code ∷ [])
unfolding on_header
on_header_other code other = simp other

on_header_ok :
    (code : ℕ)
    → (code == 200) ≡ true
    → on_header code fresh ≡ (record fresh { wrote_header = true }, [])
unfolding on_header
on_header_ok code is_200 = ground arith

header_fresh :
    (code : ℕ) (w : Response)
    → 200 ≤ code
    → w.status ≡ 0
    → w.body ≡ []
    → let (e, calls) = on_header code fresh in Sim (commit code w) (exec calls w) e
unfolding exec act
header_fresh code w real z b = elim (Bool-cases (code == 200)) [
  | inl is_200 ↦ rw (on_header_ok code is_200) (
      buffered (record {
        is_ok = refl;
        wrote = refl;
        status = ground arith;
        body = ground arith;
        fed = refl;
        unsent = z;
        empty = b;
      }))
  | inr other ↦
      rw (on_header_other code other)
        (passed refl (ground arith) refl (ground arith) (ground arith))
]

Sim-header :
    (code : ℕ) (w u : Response) (e : Writer)
    → 200 ≤ code
    → Sim w u e
    → let (e', calls) = on_header code e in Sim (commit code w) (exec calls u) e'
unfolding exec
Sim-header code w u e real (untouched new same z b) =
    subst₂ (λ x g. let (e', calls) = on_header code g in Sim (commit code w) (exec calls x) e')
      (sym same) (sym new) (header_fresh code w real z b)
Sim-header code w u e real (buffered b) =
    rw (commit_again code w (ground arith), on_header_again code e b.wrote) (buffered b)
Sim-header code w u e real (passed same ne wrote sent not_ok) =
    rw (commit_again code w sent, on_header_again code e wrote) (passed same ne wrote sent not_ok)

-- The wrapper once the implied header is there.
Sim-implied :
    (w u : Response) (e : Writer)
    → Sim w u e
    → Buffered (commit 200 w) u (implied e)
      ⊎ ((u ≡ w) × (e.status ≢ 200) × (w.status ≢ 0) × (w.status ≢ 200) × (e.wrote_header ≡ true))
Sim-implied w u e (untouched new same z b) = inl (
    subst₂ (λ x g. Buffered (commit 200 w) x (implied g)) (sym same) (sym new)
      (record {
        is_ok = refl;
        wrote = refl;
        status = ground arith;
        body = ground arith;
        fed = refl;
        unsent = z;
        empty = b;
      }))
Sim-implied w u e (buffered b) = inl (rw (commit_again 200 w (ground arith)) (simp b.wrote b))
Sim-implied w u e (passed same ne wrote sent not_ok) = inr (same, ne, sent, not_ok, wrote)

store_ok :
    (p : Text) (e : Writer)
    → e.status ≡ 200
    → store p e ≡ (record e { buf = e.buf ++ p; hashed = e.hashed ++ p }, [])
unfolding store
store_ok p e ok = ground (arith, ok)

store_other : (p : Text) (e : Writer) → e.status ≢ 200 → store p e ≡ (e, write p ∷ [])
unfolding store
store_other p e other = ground (arith, other)

implied_again : (e : Writer) → e.wrote_header ≡ true → implied e ≡ e
implied_again e wrote = ground arith

write_ok :
    (p : Text) (w : Response)
    → (commit 200 w).status ≡ 200
    → ((act (write p) w).status ≡ 200) × ((act (write p) w).body ≡ (commit 200 w).body ++ p)
unfolding act
write_ok p w ok = ground arith

Sim-write :
    (p : Text) (w u : Response) (e : Writer)
    → Sim w u e
    → let (e', calls) = on_write p e in Sim (act (write p) w) (exec calls u) e'
unfolding on_write exec
Sim-write p w u e s = elim (Sim-implied w u e s) [
  | inl b ↦ rw (store_ok p (implied e) b.is_ok) (
      buffered (record {
        is_ok = b.is_ok;
        wrote = b.wrote;
        status = (write_ok p w b.status).0;
        body = (write_ok p w b.status).1 ∙ ap (λ x. x ++ p) b.body;
        fed = ap (λ x. x ++ p) b.fed;
        unsent = b.unsent;
        empty = b.empty;
      }))
  | inr (same, ne, sent, not_ok, wrote) ↦
      rw (implied_again e wrote, store_other p e ne)
        (passed (ap (act (write p)) same) ne wrote
          (λ z. sent (sym (exec_sent (write p ∷ []) w sent).0 ∙ z))
          (λ z. not_ok (sym (exec_sent (write p ∷ []) w sent).0 ∙ z)))
]

Sim-wrap :
    (a : Action) (w u : Response) (e : Writer)
    → IsPlain a
    → Sim w u e
    → let (e', calls) = wrap a e in Sim (act a w) (exec calls u) e'
unfolding wrap act exec on_header on_write store
Sim-wrap (set_header k v) w u e h s = Sim-pass (act (set_header k v)) w u e (λ x. (refl, refl)) s
Sim-wrap (write_header code) w u e h s = Sim-header code w u e h s
Sim-wrap (write p) w u e h s = Sim-write p w u e s
Sim-wrap (del_header k) w u e h s = Sim-pass (act (del_header k)) w u e (λ x. (refl, refl)) s
Sim-wrap (set_cookie c) w u e h s = Sim-pass (act (set_cookie c)) w u e (λ x. (refl, refl)) s
Sim-wrap flush w u e h s = absurd h

Sim-wrap_all :
    (as' : List Action) (w u : Response) (e : Writer)
    → All IsPlain as'
    → Sim w u e
    → let (e', calls) = wrap_all as' e in Sim (exec as' w) (exec calls u) e'
unfolding wrap_all exec
Sim-wrap_all [] w u e h s = s
Sim-wrap_all (a ∷ as') w u e h s =
    let (e', calls) = wrap a e in
    subst (λ x. Sim (exec as' (act a w)) x (wrap_all as' e').0)
      (sym (exec-append calls (wrap_all as' e').1 u))
      (Sim-wrap_all as' (act a w) (exec calls u) e' h.1 (Sim-wrap a w u e h.0 s))

-- After the handler: its own response beside what the wrapper has let through.
pub Sim-handled :
    (as' : List Action)
    → All IsPlain as'
    → let (e, calls) = wrap_all as' fresh in Sim (exec as' blank) (exec calls blank) e
Sim-handled as' h = Sim-wrap_all as' blank blank fresh h (untouched refl refl refl refl)
