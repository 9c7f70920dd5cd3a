-- ===== src/Crawl/Delay.antt =====
-- internal/crawl/crawler.go: `waitCrawlDelay`, which spaces the requests to a host. Instants are
-- nanoseconds from the zero time on, and a host without a gate has the zero time as its next slot.
use serp_harvester.Prelude.{
  ℕ, ◌+◌, ◌≤◌, ◌≡◌, ◌≢◌, List, ltb, if◌then◌else◌, Option, none, some, Text, text_eq_iff, lookup,
  insert, lookup-insert, arith,
}

unfoldable pub next_slot : Option ℕ → ℕ
next_slot none = 0
next_slot (some at) = at

-- The part under the gate's mutex, at the instant `now`: the gates, and the slot that the call waits
-- for. The delay is positive where the function is called.
unfoldable pub reserve : ℕ → Text → ℕ → List (Text × ℕ) → List (Text × ℕ) × ℕ
reserve now host delay gates =
    let next = next_slot (lookup host gates) in
    let at = if ltb next now then now else next in (insert host (at + delay) gates, at)

-- Two calls for a host, with any calls for other hosts between them, get slots at least the first
-- call's delay apart; no slot is before the call; and a call does not move the gate of another host.
pub reserve-spacing :
    (now later : ℕ) (host other : Text) (delay delay' : ℕ) (gates gates' : List (Text × ℕ))
    → other ≢ host
    → let (g, at) = reserve now host delay gates in
      (now ≤ at)
      × (next_slot (lookup other g) ≡ next_slot (lookup other gates))
      × (next_slot (lookup host gates') ≡ next_slot (lookup host g)
          → at + delay ≤ (reserve later host delay' gates').1)
unfolding reserve next_slot
reserve-spacing now later host other delay delay' gates gates' h = ground (
  arith,
  text_eq_iff host other,
  text_eq_iff host host,
  lookup-insert host other
      ((if ltb (next_slot (lookup host gates)) now then now else next_slot (lookup host gates))
        + delay)
      gates,
  lookup-insert host host
      ((if ltb (next_slot (lookup host gates)) now then now else next_slot (lookup host gates))
        + delay)
      gates,
)
