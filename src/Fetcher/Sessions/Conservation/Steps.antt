-- ===== src/Fetcher/Sessions/Conservation/Steps.antt =====
-- internal/fetcher/playwright.go: any sequence of calls of `acquire` and `release`, and `Close`.
use serp_harvester.Prelude.{
  ℕ, zero, suc, ◌+◌, ◌<◌, ◌==◌, ◌≡◌, refl, sym, ap, ◌∙◌, List, [], ◌∷◌, ◌++◌, Bool, true, false,
  if◌then◌else◌, some, ℤ, pos, ◌-ℤ◌, ◌<ℤ◌, length, arith, get_elem?,
}
use serp_harvester.Fetcher.{Request}
use serp_harvester.Fetcher.Sessions.{
  PlaywrightConfig, Session, Pool, Driver, Acquired, session, refusal, acquire, release, put_back,
  is_kept, close_idle,
}
use serp_harvester.Fetcher.Sessions.Conservation.{
  total, one, is_id, worn, total-one, total-append, Accounted-less,
}
use serp_harvester.Fetcher.Sessions.Conservation.Taking.{Books, Left, acquire-Left, pos-less}
use serp_harvester.Fetcher.Sessions.Conservation.Slots.{Slots, acquire-Slots}

-- The list without its element `i`.
abbrev pub remove_at : List Session → ℕ → List Session
remove_at [] i = []
remove_at (s ∷ ss) zero = ss
remove_at (s ∷ ss) (suc i) = s ∷ remove_at ss i

-- The sessions out, after a call of `acquire`.
abbrev pub held : Acquired → List Session → List Session
held (session s) out = s ∷ out
held (refusal e) out = out

total-remove_at :
    (f : Session → ℕ) (ss : List Session) (i : ℕ) (s : Session)
    → get_elem? ss i ≡ some s
    → total f ss ≡ f s + total f (remove_at ss i)
unfolding total
total-remove_at f [] i s e = cc
total-remove_at f (t ∷ ss) zero s e = ground (arith, e)
total-remove_at f (t ∷ ss) (suc i) s e = omega (arith, total-remove_at f ss i s e)

length-remove_at :
    (ss : List Session) (i : ℕ) (s : Session)
    → get_elem? ss i ≡ some s
    → length ss ≡ 1 + length (remove_at ss i)
length-remove_at [] i s e = cc
length-remove_at (t ∷ ss) zero s e = omega arith
length-remove_at (t ∷ ss) (suc i) s e = omega (arith, length-remove_at ss i s e)

total-single : (f : Session → ℕ) (s : Session) → total f (s ∷ []) ≡ f s + 0
unfolding total
total-single f s = refl

one-is : (s : Session) → one s ≡ 1
unfolding one
one-is s = refl

is_id-eq : (j : ℕ) (s t : Session) → s.id ≡ t.id → is_id j s ≡ is_id j t
unfolding is_id
is_id-eq j s t e = ap (λ x. if x == j then 1 else 0) e

below : {k n : ℕ} {size : ℤ} → pos k <ℤ size → size ≡ pos n → k < n
below h e = ground (arith, h, e)

-- A session goes from those out to the idle ones.
total-moved :
    (f : Session → ℕ) (idle out : List Session) (i : ℕ) (s old : Session)
    → get_elem? out i ≡ some old
    → f s ≡ f old
    → total f (idle ++ s ∷ []) + total f (remove_at out i) ≡ total f idle + total f out
total-moved f idle out i s old at e =
    omega (arith, total-append f idle (s ∷ []), total-single f s, total-remove_at f out i old at, e)

module _ {S : Type 0} (driver : Driver S) (cfg : PlaywrightConfig) where
  -- The state of the fetcher beside the sessions that fetches hold: the books are kept, and a slot
  -- is taken for each session out.
  pub record IsValid (n m : ℕ) (p : Pool) (out : List Session) : Type 0 where
    pub books : Books driver cfg n m p out
    pub taken : p.slots ≡ length out

  acquired-IsValid :
      (n m : ℕ) (k : ℕ) (r : Acquired) (p : Pool) (w : S) (out : List Session)
      → Left driver cfg n m p out r
      → Slots driver cfg k (r, p, w)
      → k ≡ length out
      → IsValid n m p (held r out)
  acquired-IsValid n m k (session s) p w out a t e = record {
    books = a;
    taken = omega (arith, t, e);
  }
  acquired-IsValid n m k (refusal x) p w out a t e = record {
    books = a;
    taken = omega (arith, t, e);
  }

  is_kept-uses :
      (m : ℕ) (healthy : Bool) (s : Session) (p : Pool) (w : S)
      → cfg.max_session_uses ≡ pos m
      → is_kept driver cfg healthy s p w ≡ true
      → worn m s ≡ 0
  unfolding is_kept worn
  is_kept-uses m healthy s p w e h = ground (arith, e, h)

  module _ (n m : ℕ) where
    put_back-IsValid :
        (kept : Bool) (s : Session) (p : Pool) (w : S) (out : List Session) (i : ℕ) (old : Session)
        → get_elem? out i ≡ some old
        → s.id ≡ old.id
        → (kept ≡ true → worn m s ≡ 0)
        → IsValid n m p out
        → IsValid n m (put_back driver cfg kept s p w).0 (remove_at out i)
    unfolding put_back
    put_back-IsValid false s p w out i old at same fresh v = record {
      books =
          Accounted-less v.books (p.opened -ℤ pos 1) p.idle (remove_at out i)
            (pos-less 1 v.books.counted
              (omega (arith, total-remove_at one out i old at, one-is old)))
            (λ f. (omega arith, omega (arith, total-remove_at f out i old at)));
      taken = omega (arith, v.taken, length-remove_at out i old at);
    }
    put_back-IsValid true s p w out i old at same fresh v =
        let moved = λ (f : Session → ℕ). total-moved f p.idle out i s old at in
        let ids = λ (j : ℕ). moved (is_id j) (is_id-eq j s old same) in
        record {
          books = record {
            counted = v.books.counted ∙ ap pos (sym (moved one (one-is s ∙ sym (one-is old))));
            bounded = omega (arith, v.books.bounded, moved one (one-is s ∙ sym (one-is old)));
            once = λ j. omega (arith, v.books.once j, ids j);
            unused = λ j le. omega (arith, v.books.unused j le, ids j);
            rested = omega (
              arith,
              v.books.rested,
              total-append (worn m) p.idle (s ∷ []),
              total-single (worn m) s,
              fresh refl,
            );
          };
          taken = omega (arith, v.taken, length-remove_at out i old at);
        }

    close_idle-IsValid :
        (p : Pool) (w : S) (out : List Session)
        → IsValid n m p out
        → IsValid n m (close_idle driver cfg p w).0 out
    unfolding close_idle total
    close_idle-IsValid p w out v = record {
      books =
          Accounted-less v.books (p.opened -ℤ pos (length p.idle)) [] out
            (pos-less _ v.books.counted (omega (arith, total-one p.idle)))
            (λ f. (omega arith, omega arith));
      taken = v.taken;
    }

  -- Calls of the fetcher, one after another, with any change of the driver's world in between: a
  -- fetch takes a session while a slot is free, and a session that is out comes back, healthy or
  -- not; `out` lists the sessions that fetches hold.
  pub data Steps : Pool → S → List Session → Pool → S → List Session → Type 0 where
    rest : {p : Pool} {w : S} {out : List Session} → Steps p w out p w out
    drift :
        {p q : Pool} {w v : S} {out held_now : List Session}
        → (v' : S) → Steps p w out q v held_now
        → Steps p w out q v' held_now
    take :
        {p q : Pool} {w v : S} {out held_now : List Session}
        → (req : Request) → pos q.slots <ℤ cfg.pool_size
        → Steps p w out q v held_now
        → Steps p w out
            (acquire driver cfg req q v).1
            (acquire driver cfg req q v).2
            (held (acquire driver cfg req q v).0 held_now)
    give :
        {p q : Pool} {w v : S} {out held_now : List Session}
        → (healthy : Bool) (i : ℕ) (s : Session) → get_elem? held_now i ≡ some s
        → Steps p w out q v held_now
        → Steps p w out
            (release driver cfg healthy s q v).0
            (release driver cfg healthy s q v).1
            (remove_at held_now i)
    shut :
        {p q : Pool} {w v : S} {out held_now : List Session}
        → Steps p w out q v held_now
        → Steps p w out (close_idle driver cfg q v).0 (close_idle driver cfg q v).1 held_now

  module _ (n m : ℕ) (size : cfg.pool_size ≡ pos n) (uses : cfg.max_session_uses ≡ pos m) where
    pub acquire-IsValid :
        (req : Request) (p : Pool) (w : S) (out : List Session)
        → IsValid n m p out
        → p.slots < n
        → let (r, p', w') = acquire driver cfg req p w in IsValid n m p' (held r out)
    acquire-IsValid req p w out v free =
        let (r, p', w') = acquire driver cfg req p w in
        acquired-IsValid n m p.slots r p' w' out
          (acquire-Left driver cfg n m size req p w out v.books
            (omega (arith, free, v.taken, total-one out)))
          (acquire-Slots driver cfg req p w) v.taken

    pub release-IsValid :
        (healthy : Bool) (s : Session) (p : Pool) (w : S) (out : List Session) (i : ℕ)
        → get_elem? out i ≡ some s
        → IsValid n m p out
        → IsValid n m (release driver cfg healthy s p w).0 (remove_at out i)
    unfolding release
    release-IsValid healthy s p w out i at v =
        let used : Session = record s { uses = s.uses + 1 } in
        put_back-IsValid n m _ used _ w out i s at refl
          (λ kept. is_kept-uses m healthy used p w uses kept)
          (record { books = v.books; taken = v.taken })

    -- Whatever fetches take and give back, in any order, and whatever browsers and pages do
    -- meanwhile: `open` is the number of idle sessions and of sessions out, it stays within
    -- PoolSize, a slot is taken for each session out, no session is held twice or both idle and
    -- held, and no idle session has had MaxSessionUses uses.
    pub steps-IsValid :
        {p q : Pool} {w v : S} {out held_now : List Session}
        → IsValid n m p out
        → Steps p w out q v held_now
        → IsValid n m q held_now
    steps-IsValid h rest = h
    steps-IsValid h (drift v' s) = steps-IsValid h s
    steps-IsValid h (take req free s) =
        acquire-IsValid req _ _ _ (steps-IsValid h s) (below free size)
    steps-IsValid h (give healthy i x at s) =
        release-IsValid healthy x _ _ _ i at (steps-IsValid h s)
    steps-IsValid h (shut s) = close_idle-IsValid n m _ _ _ (steps-IsValid h s)
