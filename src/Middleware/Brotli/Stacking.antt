-- ===== src/Middleware/Brotli/Stacking.antt =====
-- middleware/brotli/brotli.go and middleware/gzip/gzip.go, one around the other.
use revelt.Base.{◌≡◌, ap, true, List, [], ◌∷◌, ◌++◌, none}
use revelt.Text.{Text, codes, contains}
use revelt.Http.{
  Request, Handler, Action, set_header, del_header, write_header, write, returned, no_headers,
  adapt, respond,
}
use revelt.Middleware.Gzip
use revelt.Middleware.Gzip.{Compressor, gzip, compressed}
use revelt.Middleware.Brotli.{brotli, through}

gzip_calls :
    (zg : Compressor) (next : Handler) (r : Request) (p : Text)
    → next r no_headers ≡ (write p ∷ [], returned none)
    → contains (codes "gzip") (r.headers "Accept-Encoding") ≡ true
    → let (st, deflated) = zg.push zg.start p in
      gzip zg [] next r no_headers ≡ (
        set_header "Content-Encoding" (codes "gzip")
            ∷ del_header "Content-Length"
            ∷ write_header 200
            ∷ write deflated
            ∷ write (zg.finish st)
            ∷ [],
        returned none,
      )
unfolding gzip compressed Gzip.through Gzip.wrap_all Gzip.close
gzip_calls zg next r p writes gz = rw (gz) (ap (Gzip.through zg) writes)

-- A handler that writes `p`, behind gzip inside brotli, for a client that takes both: both compress,
-- as gzip looks for an encoding before brotli has set one. The response names the encoding br only,
-- and its body is the brotli text of what gzip made of `p`.
stacked_twice :
    (zb zg : Compressor) (next : Handler) (r : Request) (err_handler : Text → List Action)
    (p : Text)
    → next r no_headers ≡ (write p ∷ [], returned none)
    → contains (codes "br") (r.headers "Accept-Encoding") ≡ true
    → contains (codes "gzip") (r.headers "Accept-Encoding") ≡ true
    → let w = adapt err_handler (brotli zb [] (gzip zg [] next)) r in
      let (st, deflated) = zg.push zg.start p in
      let (b1, out1) = zb.push zb.start deflated in
      let (b2, out2) = zb.push b1 (zg.finish st) in
      (w.sent "Content-Encoding" ≡ codes "br") × (w.body ≡ (out1 ++ out2) ++ zb.finish b2)
unfolding adapt brotli through
stacked_twice zb zg next r err_handler p writes br gz =
    let answered =
      ap (λ x. respond err_handler (through zb x)) (gzip_calls zg next r p writes gz) in
    rw (br) (ap (λ w. w.sent "Content-Encoding") answered, ap (λ w. w.body) answered)
