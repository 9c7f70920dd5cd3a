-- ===== src/Fetcher/Classify.antt =====
-- internal/fetcher/classify.go: `Classify`. `errors.As` and `errors.Is` take the first link of the
-- chain that fits.
use serp_harvester.Prelude.{
  ℕ, ◌≡◌, refl, List, [], ◌∷◌, Text, bytes, text_eq, Bool, true, false, ◌||◌, if◌then◌else◌, leb,
  Option, none, some, arith, ◌≢◌, ℤ,
}
use serp_harvester.Fetcher.{
  Link, rate_limit_error, blocked_error, status_error, transport_error, deadline_exceeded,
  playwright_timeout, net_error, url_error, message, Error, links, wrap, Outcome, success,
  rate_limited, captcha, consent, interstitial, challenge, timeout, transport, server_error,
  client_error, other,
}

-- `errors.As(err, &rl)`: the Retry-After that it carries.
unfoldable pub as_rate_limit : List Link → Option ℤ
as_rate_limit [] = none
as_rate_limit (rate_limit_error status retry_after body ∷ ls) = some retry_after
as_rate_limit (_ ∷ ls) = as_rate_limit ls

-- `errors.As(err, &blocked)`: its reason.
unfoldable pub as_blocked : List Link → Option Text
as_blocked [] = none
as_blocked (blocked_error reason url status body ∷ ls) = some reason
as_blocked (_ ∷ ls) = as_blocked ls

-- `errors.As(err, &status)`: its code.
unfoldable pub as_status : List Link → Option ℕ
as_status [] = none
as_status (status_error code ∷ ls) = some code
as_status (_ ∷ ls) = as_status ls

unfoldable pub is_canceled : Link → Bool
is_canceled Link.canceled = true
is_canceled _ = false

unfoldable pub is_deadline : Link → Bool
is_deadline deadline_exceeded = true
is_deadline playwright_timeout = true
is_deadline _ = false

-- `transport` or `urlErr` fits.
unfoldable pub is_transport : Link → Bool
is_transport transport_error = true
is_transport (url_error t) = true
is_transport _ = false

unfoldable pub any_link : (Link → Bool) → List Link → Bool
any_link p [] = false
any_link p (l ∷ ls) = p l || any_link p ls

-- `errors.As(err, &netErr)`: what its `Timeout` says; a `url.Error` and a deadline are a `net.Error`.
unfoldable pub as_net : List Link → Option Bool
as_net [] = none
as_net (net_error t ∷ ls) = some t
as_net (url_error t ∷ ls) = some t
as_net (deadline_exceeded ∷ ls) = some true
as_net (_ ∷ ls) = as_net ls

-- The `switch` on the reason.
unfoldable pub blocked_outcome : Text → Outcome
blocked_outcome reason =
    if text_eq reason (bytes "captcha")
    then captcha
    else if text_eq reason (bytes "consent")
    then consent
    else if text_eq reason (bytes "challenge")
    then challenge
    else interstitial

-- The checks from `context.Canceled` on.
unfoldable pub classify_network : List Link → Outcome
classify_network ls =
    if any_link is_canceled ls
    then Outcome.canceled
    else if any_link is_deadline ls
    then timeout
    else elim (as_net ls) [
      | some true ↦ timeout
      | some false ↦ transport
      | none ↦ if any_link is_transport ls then transport else other
    ]

unfoldable pub classify_status : Option ℕ → List Link → Outcome
classify_status none ls = classify_network ls
classify_status (some code) ls = if leb 500 code then server_error else client_error

unfoldable pub classify_blocked : Option Text → List Link → Outcome
classify_blocked none ls = classify_status (as_status ls) ls
classify_blocked (some reason) ls = blocked_outcome reason

unfoldable pub classify_links : Option ℤ → List Link → Outcome
classify_links none ls = classify_blocked (as_blocked ls) ls
classify_links (some retry_after) ls = rate_limited

-- `Classify`, where `none` is the nil error.
unfoldable pub classify : Option Error → Outcome
classify none = success
classify (some e) = classify_links (as_rate_limit (links e)) (links e)

network-message :
    (text : Text) (ls : List Link) → classify_network (message text ∷ ls) ≡ classify_network ls
unfolding classify_network any_link is_canceled is_deadline is_transport as_net
network-message text ls = refl

status-message :
    (text : Text) (o : Option ℕ) (ls : List Link)
    → classify_status o (message text ∷ ls) ≡ classify_status o ls
unfolding classify_status
status-message text none ls = network-message text ls
status-message text (some code) ls = refl

blocked-message :
    (text : Text) (o : Option Text) (ls : List Link)
    → classify_blocked o (message text ∷ ls) ≡ classify_blocked o ls
unfolding classify_blocked as_status
blocked-message text none ls = status-message text (as_status ls) ls
blocked-message text (some reason) ls = refl

links-message :
    (text : Text) (o : Option ℤ) (ls : List Link)
    → classify_links o (message text ∷ ls) ≡ classify_links o ls
unfolding classify_links as_blocked
links-message text none ls = blocked-message text (as_blocked ls) ls
links-message text (some retry_after) ls = refl

-- Wrapping an error with `fmt.Errorf` and `%w` does not change its class.
pub classify-wrap : (text : Text) (e : Error) → classify (some (wrap text e)) ≡ classify (some e)
unfolding wrap classify as_rate_limit
classify-wrap text e = links-message text (as_rate_limit (links e)) (links e)

network-ne-success : (ls : List Link) → classify_network ls ≢ success
unfolding classify_network
network-ne-success ls = ground arith

status-ne-success : (o : Option ℕ) (ls : List Link) → classify_status o ls ≢ success
unfolding classify_status
status-ne-success none ls = network-ne-success ls
status-ne-success (some code) ls = ground arith

blocked-ne-success : (o : Option Text) (ls : List Link) → classify_blocked o ls ≢ success
unfolding classify_blocked blocked_outcome
blocked-ne-success none ls = status-ne-success (as_status ls) ls
blocked-ne-success (some reason) ls = ground arith

links-ne-success : (o : Option ℤ) (ls : List Link) → classify_links o ls ≢ success
unfolding classify_links
links-ne-success none ls = blocked-ne-success (as_blocked ls) ls
links-ne-success (some retry_after) ls = λ e. cc

-- No error is taken for a success.
pub classify-ne-success : (e : Error) → classify (some e) ≢ success
unfolding classify
classify-ne-success e = links-ne-success (as_rate_limit (links e)) (links e)

-- A rate limit anywhere in the chain decides the class, whatever else the chain holds.
pub classify_rate_limit :
    (e : Error) (retry_after : ℤ)
    → as_rate_limit (links e) ≡ some retry_after
    → classify (some e) ≡ rate_limited
unfolding classify classify_links
classify_rate_limit e retry_after h = rw (h, classify_links)
