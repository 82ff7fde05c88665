-- ===== src/Normalization/Hasher/Keys.antt =====
-- The composite key of an event determines the lead, the event's name and the time.
use Prim.Native.String
use mathlib.Core.Bool.{false≢true}
use mathlib.Core.Path.{ap₂}
use text.Mathlib.TextLemmas.{nil-append, cons-append, head-eq_of_cons-eq, tail-eq_of_cons-eq}
use salesforce_tiktok_crm.Base.{
  ℕ, String, true, false, ◌≡◌, refl, sym, ◌∙◌, ap, Option, none, some, arith,
}
use salesforce_tiktok_crm.Text.{includes}
use salesforce_tiktok_crm.Text.Decimal.{show-injective, show_no_colon, show-ne-nan}
use salesforce_tiktok_crm.Types.{
  TikTokEventName, event_name_text, submit_form, lead_created, standard,
}
use salesforce_tiktok_crm.Normalization.Hasher.{timestamp_text, event_key, event_id}

abbrev NoColon : String → Type 0
NoColon s = includes ":" s ≡ false

has_colon : (s t : String) → includes ":" (String.◌++◌ s (String.◌∷◌ ":" t)) ≡ true
unfolding includes
has_colon String.[] t = rw nil-append refl
has_colon (String.◌∷◌ c s) t = rw cons-append (ground (arith, has_colon s t))

-- A text is cut in one way at its last colon.
split_unique :
    (s s' t t' : String)
    → NoColon t
    → NoColon t'
    → String.◌++◌ s (String.◌∷◌ ":" t) ≡ String.◌++◌ s' (String.◌∷◌ ":" t')
    → (s ≡ s') × (t ≡ t')
split_unique String.[] String.[] t t' h h' e =
    (refl, tail-eq_of_cons-eq (rw (nil-append, nil-append) at e))
split_unique String.[] (String.◌∷◌ c s') t t' h h' e =
    let tails : t ≡ String.◌++◌ s' (String.◌∷◌ ":" t') =
      tail-eq_of_cons-eq (rw (nil-append, cons-append) at e) in
    absurd (false≢true (sym h ∙ ap (includes ":") tails ∙ has_colon s' t'))
split_unique (String.◌∷◌ c s) String.[] t t' h h' e =
    let tails : String.◌++◌ s (String.◌∷◌ ":" t) ≡ t' =
      tail-eq_of_cons-eq (rw (nil-append, cons-append) at e) in
    absurd (false≢true (sym h' ∙ ap (includes ":") (sym tails) ∙ has_colon s t))
split_unique (String.◌∷◌ c s) (String.◌∷◌ d s') t t' h h' e =
    let cons : String.◌∷◌ c (String.◌++◌ s (String.◌∷◌ ":" t))
        ≡ String.◌∷◌ d (String.◌++◌ s' (String.◌∷◌ ":" t')) =
      rw (cons-append, cons-append) at e in
    let (same, rest) = split_unique s s' t t' h h' (tail-eq_of_cons-eq cons) in
    (ap₂ String.◌∷◌ (head-eq_of_cons-eq cons) same, rest)

event_name_text-NoColon : (n : TikTokEventName) → NoColon (event_name_text n)
unfolding event_name_text includes
event_name_text-NoColon (standard submit_form) = refl
event_name_text-NoColon (standard _) = refl
event_name_text-NoColon lead_created = refl
event_name_text-NoColon _ = refl

timestamp-NoColon : (t : Option ℕ) → NoColon (timestamp_text t)
unfolding timestamp_text
timestamp-NoColon none = unfold includes in refl
timestamp-NoColon (some t) = show_no_colon t

timestamp_text-injective : (t t' : Option ℕ) → timestamp_text t ≡ timestamp_text t' → t ≡ t'
unfolding timestamp_text
timestamp_text-injective none none h = refl
timestamp_text-injective none (some t') h = absurd (show-ne-nan t' (sym h))
timestamp_text-injective (some t) none h = absurd (show-ne-nan t h)
timestamp_text-injective (some t) (some t') h = ap some (show-injective t t' h)

-- Equal event ids come from the same lead, event name and time, unless the digest collides on the
-- two composite keys: the separator ":" makes the key unambiguous, whatever the lead's id holds.
pub event_id-injective :
    (digest : String → String) (lead lead' : String) (n n' : TikTokEventName) (t t' : Option ℕ)
    → (digest (event_key lead (event_name_text n) t)
          ≡ digest (event_key lead' (event_name_text n') t')
        → event_key lead (event_name_text n) t ≡ event_key lead' (event_name_text n') t')
    → event_id digest lead (event_name_text n) t ≡ event_id digest lead' (event_name_text n') t'
    → (lead ≡ lead') × (event_name_text n ≡ event_name_text n') × (t ≡ t')
unfolding event_id event_key
event_id-injective digest lead lead' n n' t t' no_collision h =
    let (front, time) =
      split_unique _ _ _ _ (timestamp-NoColon t) (timestamp-NoColon t') (no_collision h) in
    let (same_lead, same_name) =
      split_unique _ _ _ _ (event_name_text-NoColon n) (event_name_text-NoColon n') front in
    (same_lead, same_name, timestamp_text-injective t t' time)
