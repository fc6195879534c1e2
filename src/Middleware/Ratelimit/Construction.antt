-- ===== src/Middleware/Ratelimit/Construction.antt =====
-- middleware/ratelimit/ratelimit.go: New with its checks and defaults, and the middleware that it returns. A rate
-- or capacity that is not positive is 0; net.SplitHostPort is a parameter.
use revelt.Base.{
  ℕ, ◌*◌, ◌<◌, ◌≡◌, ap, false, ◌==◌, List, Option, none, get_or, arith, if◌then◌else◌,
}
use revelt.Text.{Text}
use revelt.Http.{Request, Headers, Handler, Action, Outcome, returned}
use revelt.Middleware.Ratelimit.{
  Bucket, Manager, unit, allow, bucket_of, manager_allow, too_many, rate_limit, new_manager,
}
use revelt.Middleware.Ratelimit.Keys.{WellFormed, bucket_of_fits}

-- `expiration` is 0 where it is not given, and the functions are none where they are nil.
pub record Config : Type 0 where
  pub rate : ℕ
  pub capacity : ℕ
  pub key_func : Option (Request → Text)
  pub expiration : ℕ
  pub error_handler : Option Handler

-- defaultKeyFunc: `host` is the host of net.SplitHostPort, none where it fails.
unfoldable pub default_key_func : (Text → Option Text) → Request → Text
default_key_func host r = get_or (host r.remote_addr) r.remote_addr

-- The default error handler.
abbrev pub default_error_handler : Handler
default_error_handler r h = (too_many, returned none)

-- One minute, in nanoseconds.
abbrev pub default_expiration : ℕ
default_expiration = 60 * unit

pub record Limiter : Type 0 where
  pub key : Request → Text
  pub error_handler : Handler
  pub manager : Manager

-- The two panics, or the middleware.
pub data Construction : Type 0 where
  rate_not_positive capacity_not_positive : Construction
  limits : Limiter → Construction

unfoldable pub new : (Text → Option Text) → Config → Construction
unfolding default_key_func
new host c =
    if c.rate == 0
    then rate_not_positive
    else if c.capacity == 0
    then capacity_not_positive
    else limits (record {
      key = get_or c.key_func (default_key_func host);
      error_handler = get_or c.error_handler default_error_handler;
      manager =
          new_manager c.rate c.capacity
            (if c.expiration == 0 then default_expiration else c.expiration);
    })

-- The middleware around `next`, at a request.
unfoldable pub limit : Limiter → Handler → ℕ → Request → Headers → Limiter × (List Action × Outcome)
unfolding manager_allow
limit l next now r h =
    let (manager, permitted) = manager_allow now (l.key r) l.manager in
    (record l { manager = manager }, if permitted then next r h else l.error_handler r h)

-- With the default error handler this is `rate_limit`.
limit-rate_limit :
    (l : Limiter) (next : Handler) (now : ℕ) (r : Request) (h : Headers)
    → l.error_handler ≡ default_error_handler
    → (limit l next now r h).1 ≡ (rate_limit l.key next now l.manager r h).1
unfolding limit rate_limit
limit-rate_limit l next now r h default =
    ap (λ e. if (manager_allow now (l.key r) l.manager).1 then next r h else e r h) default

small_allow : (now : ℕ) (b : Bucket) → b.capacity < unit → (allow now b).1 ≡ false
unfolding allow
small_allow now b small = ground arith

-- With a capacity below one token, which New accepts, no request ever reaches the handler.
small_capacity_refuses :
    (l : Limiter) (next : Handler) (now : ℕ) (r : Request) (h : Headers)
    → WellFormed l.manager.rate l.manager.capacity l.manager.buckets
    → l.manager.capacity < unit
    → (limit l next now r h).1 ≡ l.error_handler r h
unfolding limit manager_allow
small_capacity_refuses l next now r h fits small =
    let (rate, capacity) = bucket_of_fits now (l.key r) l.manager fits in
    ground (arith, small_allow now (bucket_of now (l.key r) l.manager))
