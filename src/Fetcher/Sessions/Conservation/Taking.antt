-- ===== src/Fetcher/Sessions/Conservation/Taking.antt =====
-- internal/fetcher/playwright.go: `acquire`, and the sessions that it opens, reuses and closes.
use serp_harvester.Prelude.{
  ℕ, ◌+◌, ◌≤◌, ◌<◌, ◌==◌, ◌≡◌, refl, ◌⊎◌, inl, inr, List, [], ◌∷◌, ◌++◌, Bool, true, false, ltb,
  leb_ℤ, Option, none, some, ℤ, pos, ◌+ℤ◌, ◌-ℤ◌, length, keep, arith, Text, if_both,
}
use serp_harvester.Fetcher.{Request, Error}
use serp_harvester.Fetcher.Sessions.{
  PlaywrightConfig, Session, Pool, Driver, Sifted, sift, sessions_of, evict, one_if, Acquired,
  session, refusal, drop_dead, on_launch, launch_browser, relaunch, browser_or, browser_locked,
  on_session, open_session, choose, with_browser, acquire, session_key, close_sessions, new_session,
  is_dead, fits,
}
use serp_harvester.Fetcher.Sessions.Conservation.{
  total, one, is_id, total-one, total-append, total-keep, total-sift, Accounted, Accounted-less,
}

pub Accounted-add :
    {n m : ℕ} {opened : ℤ} {next : ℕ} {idle out : List Session}
    → Accounted n m opened next idle out
    → (opened' : ℤ) (s : Session) → total one idle + total one out < n
    → s.id ≡ next
    → opened' ≡ pos (total one idle + (1 + total one out))
    → Accounted n m opened' (next + 1) idle (s ∷ out)
unfolding total one is_id
Accounted-add a opened' s room e c = record {
  counted = c;
  bounded = omega (arith, room);
  once = λ i. ground (arith, a.once i, a.unused i, e);
  unused = λ i le. ground (arith, a.unused i, e);
  rested = a.rested;
}

total-evict :
    (f : Session → ℕ) (full : Bool) (ss : List Session)
    → let (e, rest) = evict full ss in total f rest + total f (sessions_of e) ≡ total f ss
unfolding evict sessions_of total
total-evict f true [] = omega arith
total-evict f true (s ∷ ss) = omega arith
total-evict f false [] = omega arith
total-evict f false (s ∷ ss) = omega arith

evict_room :
    (full : Bool) (ss : List Session)
    → (full ≡ false) ⊎ (1 ≤ total one (sessions_of (evict full ss).0)) ⊎ (total one ss ≡ 0)
unfolding evict sessions_of total one
evict_room true [] = inr (inr refl)
evict_room true (s ∷ ss) = inr (inl (omega arith))
evict_room false ss = inl refl

one_if-total : (o : Option Session) → one_if o ≡ pos (total one (sessions_of o))
unfolding one_if sessions_of total one
one_if-total none = refl
one_if-total (some s) = refl

no-total : (f : Session → ℕ) → total f (sessions_of none) ≡ 0
unfolding total sessions_of
no-total f = refl

pub pos-less : {o : ℤ} {a b : ℕ} (k : ℕ) → o ≡ pos a → b + k ≡ a → o -ℤ pos k ≡ pos b
pos-less k e h = ground (arith, e, h)

module _ {S : Type 0} (driver : Driver S) (cfg : PlaywrightConfig) (n m : ℕ) where
  abbrev pub Books : Pool → List Session → Type 0
  Books p out = Accounted n m p.opened p.next_id p.idle out

  drop_dead-Books :
      (o : Option ℕ) (p : Pool) (out : List Session)
      → Books p out
      → Books (drop_dead driver cfg o p) out
  unfolding drop_dead
  drop_dead-Books none p out a = a
  drop_dead-Books (some b) p out a =
      let t = λ (f : Session → ℕ). total-keep f (λ s. s.browser == b) p.idle in
      Accounted-less a _ _ out
        (ground (arith, a.counted, t one, total-one (keep (λ s. s.browser == b) p.idle)))
        (λ f. (omega (arith, t f), omega (arith, t f)))

  on_launch-Books :
      (p : Pool) (w : S) (x : Error ⊎ ℕ) (out : List Session)
      → Books p out
      → Books (on_launch driver cfg p w x).1 out
  unfolding on_launch
  on_launch-Books p w (inl e) out a = a
  on_launch-Books p w (inr b) out a = a

  launch_browser-Books :
      (p : Pool) (w : S) (out : List Session)
      → Books p out
      → Books (launch_browser driver cfg p w).1 out
  unfolding launch_browser
  launch_browser-Books p w out a =
      on_launch-Books p (driver.launch cfg w).1 (driver.launch cfg w).0 out a

  relaunch-Books :
      (p : Pool) (w : S) (out : List Session) → Books p out → Books (relaunch driver cfg p w).1 out
  unfolding relaunch
  relaunch-Books p w out a =
      if_both (λ (r : (Error ⊎ ℕ) × Pool × S). Books r.1 out) p.closed _ _ a
        (if_both (λ (r : (Error ⊎ ℕ) × Pool × S). Books r.1 out)
          (ltb (driver.clock w) p.next_launch) _ _ a
          (launch_browser-Books (drop_dead driver cfg p.browser p) w out
            (drop_dead-Books p.browser p out a)))

  pub browser_or-Books :
      (o : Option ℕ) (p : Pool) (w : S) (out : List Session)
      → Books p out
      → Books (browser_or driver cfg o p w).1 out
  unfolding browser_or
  browser_or-Books none p w out a = relaunch-Books p w out a
  browser_or-Books (some b) p w out a =
      if_both (λ (r : (Error ⊎ ℕ) × Pool × S). Books r.1 out) (driver.connected w b) _ _ a
        (relaunch-Books p w out a)

  -- What a call of `acquire` leaves: with a session, it is on the books as held.
  abbrev pub Left : Pool → List Session → Acquired → Type 0
  Left p out (session s) = Books p (s ∷ out)
  Left p out (refusal e) = Books p out

  on_session-Left :
      (b : ℕ) (key : Text) (x : Error ⊎ ℕ) (p : Pool) (opened : ℤ) (out : List Session)
      → Accounted n m opened p.next_id p.idle out
      → total one p.idle + total one out < n
      → p.opened ≡ opened +ℤ pos 1
      → let (r, p') = on_session driver cfg b key x p in Left p' out r
  unfolding on_session
  on_session-Left b key (inl e) p opened out a room c =
      Accounted-less a _ p.idle out (ground (arith, a.counted, c)) λ f. (omega arith, omega arith)
  on_session-Left b key (inr context) p opened out a room c =
      Accounted-add a _ _ room refl (ground (arith, a.counted, c))

  module _ (size : cfg.pool_size ≡ pos n) where
    evict-room :
        (p : Pool) (out : List Session)
        → Books p out
        → total one out < n
        → total one (evict (leb_ℤ cfg.pool_size p.opened) p.idle).1 + total one out < n
    evict-room p out a free =
        let full = leb_ℤ cfg.pool_size p.opened in
        let t = total-evict one full p.idle in
        elim (evict_room full p.idle) [
          | inl e ↦ ground (arith, t, a.counted, size, e)
          | inr (inl some_evicted) ↦ omega (arith, t, a.bounded, some_evicted)
          | inr (inr none_idle) ↦ omega (arith, t, none_idle, free)
        ]

    open_session-Left :
        (b : ℕ) (req : Request) (stale : List Session) (p : Pool) (w : S) (out : List Session)
        → Books p out
        → total one out < n
        → let (r, p', w') = open_session driver cfg b req stale p w in Left p' out r
    unfolding open_session
    open_session-Left b req stale p w out a free =
        let full = leb_ℤ cfg.pool_size p.opened in
        let (e, idle) = evict full p.idle in
        let less =
          Accounted-less a (p.opened -ℤ one_if e) idle out
            (rw (one_if-total e) (ground (arith, a.counted, total-evict one full p.idle)))
            (λ f. (
              omega (arith, total-evict f full p.idle),
              omega (arith, total-evict f full p.idle),
            )) in
        let (c, w₁) = close_sessions driver cfg (stale ++ sessions_of e) p.counters w in
        on_session-Left b (session_key driver cfg req) (new_session driver cfg b req w₁).0
          (record p { idle = idle; opened = p.opened -ℤ one_if e +ℤ pos 1; counters = c })
          (p.opened -ℤ one_if e) out less (evict-room p out a free) refl

    choose-Left :
        (b : ℕ) (req : Request) (x : Sifted) (p : Pool) (w : S) (out : List Session)
        → Books p (sessions_of x.reuse ++ out)
        → total one out < n
        → let (r, p', w') = choose driver cfg b req x p w in Left p' out r
    unfolding choose sessions_of
    choose-Left b req x p w out a free = go x.reuse refl
      where
        go :
            (o : Option Session)
            → x.reuse ≡ o
            → let (r, p', w') = choose driver cfg b req x p w in Left p' out r
        go none e = rw e (open_session-Left b req x.stale p w out (rw e at a) free)
        go (some s) e = rw e (rw e at a)

    with_browser-Left :
        (req : Request) (x : Error ⊎ ℕ) (p : Pool) (w : S) (out : List Session)
        → Books p out
        → total one out < n
        → let (r, p', w') = with_browser driver cfg req x p w in Left p' out r
    unfolding with_browser
    with_browser-Left req (inl e) p w out a free = a
    with_browser-Left req (inr b) p w out a free =
        let dead = is_dead driver cfg w in
        let fit = fits driver cfg (session_key driver cfg req) b in
        let x = sift dead fit none p.idle in
        let t = λ (f : Session → ℕ). total-sift f dead fit none p.idle in
        let u = λ (f : Session → ℕ). total-append f (sessions_of x.reuse) out in
        choose-Left b req x _ w out
          (Accounted-less a (p.opened -ℤ pos (length x.stale)) x.kept (sessions_of x.reuse ++ out)
            (pos-less _ a.counted (omega (arith, t one, u one, no-total one, total-one x.stale)))
            (λ f. (omega (arith, t f, no-total f), omega (arith, t f, u f, no-total f))))
          free

    -- `acquire` keeps the books: the session that it returns is on them as held.
    pub acquire-Left :
        (req : Request) (p : Pool) (w : S) (out : List Session)
        → Books p out
        → total one out < n
        → let (r, p', w') = acquire driver cfg req p w in Left p' out r
    unfolding acquire browser_locked
    acquire-Left req p w out a free =
        if_both (λ (r : Acquired × Pool × S). Left r.1 out r.0) p.closed _ _ a
          (with_browser-Left req _ _ _ out
            (browser_or-Books p.browser (record p { slots = p.slots + 1 }) w out a) free)
