-- ===== src/Fetcher/Sessions/Conservation.antt =====
-- internal/fetcher/playwright.go: which sessions exist, while fetches take and return them.
pub mod Taking
pub mod Slots
pub mod Steps
pub mod Start
use serp_harvester.Prelude.{
  ℕ, zero, suc, ◌+◌, ◌-◌, ◌≤◌, ◌<◌, ◌==◌, ◌≡◌, refl, sym, ap, ◌∙◌, ◌⊎◌, inl, inr, List, [], ◌∷◌,
  ◌++◌, Bool, true, false, not, ltb, if◌then◌else◌, Option, none, some, ℤ, pos, ◌+ℤ◌, ◌-ℤ◌, length,
  keep, arith, Bool-cases,
}
use serp_harvester.Fetcher.Sessions.{Session, Sifted, sift, sessions_of}

abbrev pub Weight : Type 0
Weight = Session → ℕ

-- The sum of the weights of sessions.
unfoldable pub total : Weight → List Session → ℕ
total f [] = 0
total f (s ∷ ss) = f s + total f ss

unfoldable pub one : Weight
one s = 1

-- The session with the address `i`.
unfoldable pub is_id : ℕ → Weight
is_id i s = if s.id == i then 1 else 0

-- A session that has had `m` uses or more.
unfoldable pub worn : ℕ → Weight
worn m s = if ltb s.uses m then 0 else 1

pub total-one : (ss : List Session) → total one ss ≡ length ss
unfolding total one
total-one [] = refl
total-one (s ∷ ss) = omega (arith, total-one ss)

pub total-append :
    (f : Weight) (ss ts : List Session) → total f (ss ++ ts) ≡ total f ss + total f ts
unfolding total
total-append f [] ts = omega arith
total-append f (s ∷ ss) ts = omega (arith, total-append f ss ts)

pub total-keep :
    (f : Weight) (p : Session → Bool) (ss : List Session)
    → total f (keep p ss) + total f (keep (λ s. not (p s)) ss) ≡ total f ss
unfolding total
total-keep f p [] = refl
total-keep f p (s ∷ ss) = elim (Bool-cases (p s)) [
  | inl e ↦ rw (e, keep, total) (omega (arith, total-keep f p ss))
  | inr e ↦ rw (e, keep, total) (omega (arith, total-keep f p ss))
]

pub total-sift :
    (f : Weight) (dead fits : Session → Bool) (o : Option Session) (ss : List Session)
    → let x = sift dead fits o ss in
      total f x.kept + total f x.stale + total f (sessions_of x.reuse)
      ≡ total f ss + total f (sessions_of o)
unfolding total sift sessions_of
total-sift f dead fits o [] = omega arith
total-sift f dead fits (some r) (s ∷ ss) = ground (arith, total-sift f dead fits (some r) ss)
total-sift f dead fits none (s ∷ ss) =
    ground (arith, total-sift f dead fits none ss, total-sift f dead fits (some s) ss)

-- The books on the sessions: `idle` ones, and `out` ones that fetches hold, of which there are at
-- most `n` together. `opened` is their number, no session stands twice in the books, no address at
-- or above `next` is in use, and no idle session is worn out.
pub record Accounted (n m : ℕ) (opened : ℤ) (next : ℕ) (idle out : List Session) : Type 0 where
  pub counted : opened ≡ pos (total one idle + total one out)
  pub bounded : total one idle + total one out ≤ n
  pub once : (i : ℕ) → total (is_id i) idle + total (is_id i) out ≤ 1
  pub unused : (i : ℕ) → next ≤ i → total (is_id i) idle + total (is_id i) out ≡ 0
  pub rested : total (worn m) idle ≡ 0

-- Books from which sessions are taken off, or in which they move out of the idle ones.
pub Accounted-less :
    {n m : ℕ} {opened : ℤ} {next : ℕ} {idle out : List Session}
    → Accounted n m opened next idle out
    → (opened' : ℤ) (idle' out' : List Session) → opened' ≡ pos (total one idle' + total one out')
    → ((f : Weight)
        → (total f idle' ≤ total f idle)
          × (total f idle' + total f out' ≤ total f idle + total f out))
    → Accounted n m opened' next idle' out'
Accounted-less {n} {m} a opened' idle' out' c h = record {
  counted = c;
  bounded = omega (arith, a.bounded, (h one).1);
  once = λ i. omega (arith, a.once i, (h (is_id i)).1);
  unused = λ i le. omega (arith, a.unused i le, (h (is_id i)).1);
  rested = omega (arith, a.rested, (h (worn m)).0);
}
