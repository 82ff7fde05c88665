-- ===== src/Enrichment/Score.antt =====
-- The score of a lead's identity signals.
use salesforce_tiktok_crm.Base.{
  ℕ, ◌≤◌, ◌<◌, Bool, true, false, ◌≡◌, ◌↔◌, ◌⊎◌, Option, String, arith,
}
use salesforce_tiktok_crm.Types.{CanonicalUser, CanonicalAttribution, CanonicalDevice}
use salesforce_tiktok_crm.Enrichment.{
  above_70, from_40_to_70, from_20_to_40, below_20, weight, match_rate, present, score_signals,
}

weight-le : (b : Bool) (n : ℕ) → weight b n ≤ n
unfolding weight
weight-le true n = omega arith
weight-le false n = omega arith

weight_mono : (b c : Bool) (n : ℕ) → (b ≡ true → c ≡ true) → weight b n ≤ weight c n
unfolding weight
weight_mono b c n h = ground arith

match_rate_bands :
    (s : ℕ)
    → ((match_rate s ≡ above_70) ↔ (70 ≤ s))
      × ((match_rate s ≡ from_40_to_70) ↔ ((45 ≤ s) × (s < 70)))
      × ((match_rate s ≡ from_20_to_40) ↔ ((20 ≤ s) × (s < 45)))
      × ((match_rate s ≡ below_20) ↔ (s < 20))
unfolding match_rate
match_rate_bands s = ground arith

-- `b` has at least the signal that `a` has.
abbrev pub Covers : Option String → Option String → Type 0
Covers a b = present a ≡ true → present b ≡ true

-- One lead's identity signals are among another's.
pub record FewerSignals (user user' : CanonicalUser)
    (attribution attribution' : CanonicalAttribution) (device device' : CanonicalDevice)
    : Type 0 where
  pub lead_id : Covers user.tiktok_lead_id user'.tiktok_lead_id
  pub email : Covers user.email user'.email
  pub phone : Covers user.phone user'.phone
  pub external_id : Covers user.external_id user'.external_id
  pub ttclid : Covers attribution.ttclid attribution'.ttclid
  pub ip : Covers device.ip device'.ip
  pub user_agent : Covers device.user_agent device'.user_agent

-- A lead that has another's signals, and perhaps more, scores at least as much, and no lead scores
-- more than 120.
pub score_mono :
    (user user' : CanonicalUser) (attribution attribution' : CanonicalAttribution)
    (device device' : CanonicalDevice)
    → FewerSignals user user' attribution attribution' device device'
    → ((score_signals user attribution device).score
        ≤ (score_signals user' attribution' device').score)
      × ((score_signals user' attribution' device').score ≤ 120)
unfolding score_signals
score_mono user user' attribution attribution' device device' few = (
  omega (
    arith,
    weight_mono _ _ 40 few.lead_id,
    weight_mono _ _ 30 few.email,
    weight_mono _ _ 20 few.phone,
    weight_mono _ _ 15 few.ttclid,
    weight_mono _ _ 10 few.external_id,
    weight_mono _ _ 3 few.ip,
    weight_mono _ _ 2 few.user_agent,
  ),
  omega (arith, weight-le),
)

-- The estimated match rate is the band of the score: above 70% exactly from 70 points, 40 to 70%
-- exactly from 45 to 69, 20 to 40% exactly from 20 to 44, below 20% exactly under 20.
pub score_bands :
    (user : CanonicalUser) (attribution : CanonicalAttribution) (device : CanonicalDevice)
    → let q = score_signals user attribution device in
      ((q.estimated_match_rate ≡ above_70) ↔ (70 ≤ q.score))
      × ((q.estimated_match_rate ≡ from_40_to_70) ↔ ((45 ≤ q.score) × (q.score < 70)))
      × ((q.estimated_match_rate ≡ from_20_to_40) ↔ ((20 ≤ q.score) × (q.score < 45)))
      × ((q.estimated_match_rate ≡ below_20) ↔ (q.score < 20))
unfolding score_signals
score_bands user attribution device =
    match_rate_bands ((score_signals user attribution device).score)

low_rate : (s : ℕ) → s ≤ 30 → (match_rate s ≡ from_20_to_40) ⊎ (match_rate s ≡ below_20)
unfolding match_rate
low_rate s h = ground arith

-- Without a TikTok lead id, an email and a phone number a lead scores 30 points at most, so that
-- its estimated match rate is under 40%.
pub score_anonymous :
    (user : CanonicalUser) (attribution : CanonicalAttribution) (device : CanonicalDevice)
    → present user.tiktok_lead_id ≡ false
    → present user.email ≡ false
    → present user.phone ≡ false
    → let q = score_signals user attribution device in
      (q.score ≤ 30)
      × ((q.estimated_match_rate ≡ from_20_to_40) ⊎ (q.estimated_match_rate ≡ below_20))
unfolding score_signals
score_anonymous user attribution device h k l =
    let low : (score_signals user attribution device).score ≤ 30 =
      rw (h, k, l) (unfold weight in omega (arith, weight-le)) in
    (low, low_rate _ low)
