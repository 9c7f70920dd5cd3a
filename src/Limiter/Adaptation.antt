-- ===== src/Limiter/Adaptation.antt =====
-- internal/ratelimit/limiter.go: the band that AIMD keeps every rate in, and what a call changes.
use serp_harvester.Prelude.{
  ◌≡◌, refl, sym, ◌∙◌, subst, ap, Bool, true, false, if◌then◌else◌, Text, lookup-insert, text_eq,
  text_eq_iff, Float, IsIeee, ◌≼◌, Bool-cases, inl, inr, ◌⊎◌, ◌≢◌, arith,
}
use serp_harvester.Limiter.{
  Buckets, IsBuckets, Limiter, bucket, bucket_for, set_limit_of, penalize, reward,
}

-- Halving lowers, and adding raises, what is not negative.
pub record HasHalves (W : Type 0) ⦃f : Float W⦄ : Type 0 where
  pub half-le : (x : W) → f.lit 0 1 ≼ x → f.div x (f.lit 2 1) ≼ x
  pub le-add : (x y : W) → f.lit 0 1 ≼ x → f.lit 0 1 ≼ y → x ≼ f.add x y

module _ {W B : Type 0} ⦃f : Float W⦄ (k : Buckets W B) where
  -- The rate of a key, whether or not its bucket has been made.
  abbrev pub rate_of : Limiter W B → Text → W
  rate_of l key = k.limit (bucket k l key)

  bucket_for-bucket : (l : Limiter W B) (key : Text) → (bucket_for k l key).1 ≡ bucket k l key
  unfolding bucket_for bucket
  bucket_for-bucket l key = ground arith

  bucket-set_limit_of :
      (l : Limiter W B) (key j : Text) (x : W) (b : B)
      → bucket k (set_limit_of k key x b l) j
        ≡ (if text_eq key j then k.set_limit x b else bucket k l j)
  unfolding bucket set_limit_of
  bucket-set_limit_of l key j x b = ground (arith, lookup-insert key j (k.set_limit x b) l.buckets)

  bucket-bucket_for :
      (l : Limiter W B) (key j : Text) → bucket k (bucket_for k l key).0 j ≡ bucket k l j
  unfolding bucket bucket_for
  bucket-bucket_for l key j =
      ground (arith, text_eq_iff key j, lookup-insert key j (k.new_limiter l.rps l.burst) l.buckets)

  -- Every rate lies between the floor and the configured rate, and none of them is negative.
  abbrev pub InBand : Limiter W B → Type 0
  InBand l =
      (f.lit 0 1 ≼ l.min_rps)
      × (f.lit 0 1 ≼ l.step)
      × ((key : Text) → (l.min_rps ≼ rate_of l key) × (rate_of l key ≼ l.rps))

  between :
      {a b x a' b' x' : W} → a' ≡ a → b' ≡ b → x' ≡ x → (a ≼ x) × (x ≼ b) → (a' ≼ x') × (x' ≼ b')
  between ea eb ex h = rw (ea, eb, ex) h

  -- `l` and `m` have the same settings, and every other key the same rate.
  abbrev pub Frame : Text → Limiter W B → Limiter W B → Type 0
  Frame key l m =
      (m.rps ≡ l.rps)
      × (m.min_rps ≡ l.min_rps)
      × (m.step ≡ l.step)
      × (m.adaptive ≡ l.adaptive)
      × (m.burst ≡ l.burst)
      × ((j : Text) → key ≢ j → rate_of m j ≡ rate_of l j)

  module _ (laws : IsBuckets k) where
    -- The limiter after a call on `key` that sets the rate `x`.
    set : Limiter W B → Text → W → Limiter W B
    set l key x = set_limit_of k key x (bucket_for k l key).1 (bucket_for k l key).0

    rate_of-set_self : (l : Limiter W B) (key : Text) (x : W) → rate_of (set l key x) key ≡ x
    unfolding set
    rate_of-set_self l key x =
        ap k.limit (bucket-set_limit_of (bucket_for k l key).0 key key x (bucket_for k l key).1)
        ∙ rw ((text_eq_iff key key).1 refl) (laws.limit-set x _)

    text_ne_eq : (s t : Text) → s ≢ t → text_eq s t ≡ false
    text_ne_eq s t h = ground (arith, text_eq_iff s t)

    bucket_for-settings :
        (l : Limiter W B) (key : Text)
        → let m = (bucket_for k l key).0 in
          (m.rps ≡ l.rps)
          × (m.min_rps ≡ l.min_rps)
          × (m.step ≡ l.step)
          × (m.adaptive ≡ l.adaptive)
          × (m.burst ≡ l.burst)
    unfolding bucket_for
    bucket_for-settings l key = ground arith

    bucket_for-Frame : (l : Limiter W B) (key : Text) → Frame key l (bucket_for k l key).0
    bucket_for-Frame l key =
        let (r, m, s, a, burst) = bucket_for-settings l key in
        (r, m, s, a, burst, (λ j h. ap k.limit (bucket-bucket_for l key j)))

    set-Frame : (l : Limiter W B) (key : Text) (x : W) → Frame key l (set l key x)
    unfolding set set_limit_of
    set-Frame l key x =
        let (r, m, s, a, burst) = bucket_for-settings l key in
        (
          r,
          m,
          s,
          a,
          burst,
          (λ j h.
              ap k.limit (bucket-set_limit_of (bucket_for k l key).0 key j x (bucket_for k l key).1)
              ∙ rw (text_ne_eq key j h) (ap k.limit (bucket-bucket_for l key j))),
        )

    bucket_for-InBand : (l : Limiter W B) (key : Text) → InBand l → InBand (bucket_for k l key).0
    bucket_for-InBand l key (floor, up, h) =
        let (r, m, s, a, burst) = bucket_for-settings l key in
        (
          subst (λ t. f.lit 0 1 ≼ t) (sym m) floor,
          subst (λ t. f.lit 0 1 ≼ t) (sym s) up,
          (λ j. between m r (ap k.limit (bucket-bucket_for l key j)) (h j)),
        )

    set-InBand :
        (l : Limiter W B) (key : Text) (x : W)
        → InBand l
        → l.min_rps ≼ x
        → x ≼ l.rps
        → InBand (set l key x)
    set-InBand l key x (floor, up, h) low high =
        let (r, m, s, a, burst, others) = set-Frame l key x in
        (
          subst (λ t. f.lit 0 1 ≼ t) (sym m) floor,
          subst (λ t. f.lit 0 1 ≼ t) (sym s) up,
          (λ j. elim (Bool-cases (text_eq key j)) [
            | inl e ↦
                between m r
                  (subst (λ t. rate_of (set l key x) t ≡ x) ((text_eq_iff key j).0 e)
                    (rate_of-set_self l key x))
                  (low, high)
            | inr e ↦
                between m r
                  (others j (λ same. true_ne_false (sym ((text_eq_iff key j).1 same) ∙ e))) (h j)
          ]),
        )
      where
        true_ne_false : true ≢ false
        true_ne_false h = cc

    -- Half the rate, or the floor.
    abbrev pub lowered : Limiter W B → Text → W
    lowered l key =
        let half = f.div (rate_of l key) (f.lit 2 1) in
        if f.lt half l.min_rps then l.min_rps else half

    -- The rate and the step, or the configured rate.
    abbrev raised : Limiter W B → Text → W
    raised l key =
        let next = f.add (rate_of l key) l.step in if f.lt l.rps next then l.rps else next

    penalize_cases :
        (l : Limiter W B) (key : Text)
        → l.adaptive ≡ true
        → ((f.le (rate_of l key) (lowered l key) ≡ true)
            × (penalize k l key ≡ ((bucket_for k l key).0, false)))
          ⊎ ((f.le (rate_of l key) (lowered l key) ≡ false)
              × (penalize k l key ≡ (set l key (lowered l key), true)))
    unfolding penalize set
    penalize_cases l key on = elim (Bool-cases (f.le (rate_of l key) (lowered l key))) [
      | inl e ↦ inl (e, rw (bucket_for-bucket l key, e, on) refl)
      | inr e ↦ inr (e, rw (bucket_for-bucket l key, e, on) refl)
    ]

    reward_cases :
        (l : Limiter W B) (key : Text)
        → l.adaptive ≡ true
        → ((f.le l.rps (rate_of l key) ≡ true) × (reward k l key ≡ (bucket_for k l key).0))
          ⊎ ((f.le l.rps (rate_of l key) ≡ false) × (reward k l key ≡ set l key (raised l key)))
    unfolding reward set
    reward_cases l key on = elim (Bool-cases (f.le l.rps (rate_of l key))) [
      | inl e ↦ inl (e, rw (bucket_for-bucket l key, e, on) refl)
      | inr e ↦ inr (e, rw (bucket_for-bucket l key, e, on) refl)
    ]

    module _ (ieee : IsIeee W) (halves : HasHalves W) (l : Limiter W B) (key : Text) where
      -- The rate after half of it is taken lies in the band, and is not above the old one.
      lowered-band : InBand l → (l.min_rps ≼ lowered l key) × (lowered l key ≼ rate_of l key)
      lowered-band (floor, up, h) =
          let (low, high) = h key in
          let (self_floor, self_cur) = ieee.refl_of_le _ _ low in
          let half = halves.half-le _ (ieee.le_trans _ _ _ floor low) in
          elim (Bool-cases (f.lt (f.div (rate_of l key) (f.lit 2 1)) l.min_rps)) [
            | inl e ↦ rw e (self_floor, low)
            | inr e ↦ rw e (ieee.le_of_not_lt _ _ (ieee.refl_of_le _ _ half).0 self_floor e, half)
          ]

      raised-band : InBand l → (rate_of l key ≼ raised l key) × (raised l key ≼ l.rps)
      raised-band (floor, up, h) =
          let (low, high) = h key in
          let (self_cur, self_rps) = ieee.refl_of_le _ _ high in
          let more = halves.le-add _ _ (ieee.le_trans _ _ _ floor low) up in
          elim (Bool-cases (f.lt l.rps (f.add (rate_of l key) l.step))) [
            | inl e ↦ rw e (high, self_rps)
            | inr e ↦ rw e (more, ieee.le_of_not_lt _ _ self_rps (ieee.refl_of_le _ _ more).1 e)
          ]

      abbrev PenalizeResult : Limiter W B × Bool → Type 0
      PenalizeResult (m, decreased) =
          InBand m
          × Frame key l m
          × (((decreased ≡ true)
                × (rate_of m key ≡ lowered l key)
                × (f.le (rate_of l key) (rate_of m key) ≡ false))
              ⊎ ((decreased ≡ false)
                  × (rate_of m key ≡ rate_of l key)
                  × (rate_of l key ≼ lowered l key)))

      abbrev RewardResult : Limiter W B → Type 0
      RewardResult m = InBand m × Frame key l m × (rate_of l key ≼ rate_of m key)

      -- With the documented laws of float64 and of the bucket's `Limit`, on an adaptive limiter whose
      -- rates lie in the band: after `Penalize` they lie in it, and no setting and no other key's
      -- rate has changed. It returns true and the key's rate becomes half of it, or the floor if
      -- that is more, and is lower than before; or this would not lower it, and it returns false
      -- and the key's rate is what it was.
      pub penalize_lem :
          l.adaptive ≡ true
          → InBand l
          → let (m, decreased) = penalize k l key in
            InBand m
            × Frame key l m
            × (((decreased ≡ true)
                  × (rate_of m key ≡ lowered l key)
                  × (f.le (rate_of l key) (rate_of m key) ≡ false))
                ⊎ ((decreased ≡ false)
                    × (rate_of m key ≡ rate_of l key)
                    × (rate_of l key ≼ lowered l key)))
      penalize_lem on band = elim (penalize_cases l key on) [
        | inl (e, p) ↦ subst PenalizeResult (sym p) (
          bucket_for-InBand l key band,
          bucket_for-Frame l key,
          inr (refl, ap k.limit (bucket-bucket_for l key key), e),
        )
        | inr (e, p) ↦ subst PenalizeResult (sym p) (
          set-InBand l key _ band (lowered-band band).0
              (ieee.le_trans _ _ _ (lowered-band band).1 (band.2 key).1),
          set-Frame l key _,
          inl (refl, rate_of-set_self l key _, rw (rate_of-set_self l key (lowered l key)) e),
        )
      ]

      -- `Reward`, on an adaptive limiter whose rates lie in the band: they stay there, no setting
      -- and no other key's rate changes, and the key's own is not lowered.
      pub reward_lem :
          l.adaptive ≡ true
          → InBand l
          → let m = reward k l key in InBand m × Frame key l m × (rate_of l key ≼ rate_of m key)
      reward_lem on band = elim (reward_cases l key on) [
        | inl (e, p) ↦ subst RewardResult (sym p) (
          bucket_for-InBand l key band,
          bucket_for-Frame l key,
          rw (ap k.limit (bucket-bucket_for l key key)) (ieee.refl_of_le _ _ (band.2 key).1).0,
        )
        | inr (e, p) ↦ subst RewardResult (sym p) (
          set-InBand l key _ band (ieee.le_trans _ _ _ (band.2 key).0 (raised-band band).0)
              (raised-band band).1,
          set-Frame l key _,
          rw (rate_of-set_self l key (raised l key)) (raised-band band).0,
        )
      ]
