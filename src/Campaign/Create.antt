-- ===== src/Campaign/Create.antt =====
-- `create_campaign`, under the unique constraint on provider, type and idempotency key
-- (src/apps/sync/services/campaign_service.py).
use noshiro_db_backend.Base.{
  ◌≡◌, refl, sym, ◌∙◌, ap, inl, inr, Bool, true, false, ◌&&◌, Option, none, some, List, [], ◌∷◌,
  ◌++◌, String, arith, str_eq, is_text, if◌then◌else◌, Option-cases, first_where, eq_iff, strip,
}
use noshiro_db_backend.Agent.Transcript.{take_chars}
use noshiro_db_backend.Campaign.Model.{Status, AiMode, Parameters}

-- A row of the table of campaigns, of the columns that creation writes. The type is its text.
pub record Created : Type 0 where
  pub provider_slug : String
  pub campaign_type : String
  pub idempotency_key : String
  pub ai_mode : AiMode
  pub parameters : Parameters
  pub status : Status

-- The arguments of `create_campaign`. `ai_mode` is `none` for a text that is no mode.
pub record Request : Type 0 where
  pub provider_slug : String
  pub campaign_type : String
  pub ai_mode : Option AiMode
  pub parameters : Parameters
  pub idempotency_key : Option String

-- `(idempotency_key or "").strip()[:128]`
unfoldable pub key_of : Option String → String
key_of none = ""
key_of (some text) = take_chars 128 (strip text)

abbrev matches : String → String → String → Created → Bool
matches slug kind key c =
    str_eq c.provider_slug slug && str_eq c.campaign_type kind && str_eq c.idempotency_key key

abbrev pub new_campaign : Request → AiMode → String → Created
new_campaign r mode key = record {
  provider_slug = r.provider_slug;
  campaign_type = r.campaign_type;
  idempotency_key = key;
  ai_mode = mode;
  parameters = r.parameters;
  status = Status.queued;
}

-- `get_or_create`, of the row that is found.
unfoldable pub get_or_create : Created → Option Created → List Created → Created × List Created
get_or_create new none rows = (new, rows ++ (new ∷ []))
get_or_create new (some found) rows = (found, rows)

-- The row and the table, by the key.
unfoldable pub create_keyed : Request → AiMode → String → List Created → Created × List Created
create_keyed r mode key rows =
    if is_text key
    then get_or_create (new_campaign r mode key)
        (first_where (matches r.provider_slug r.campaign_type key) rows) rows
    else get_or_create (new_campaign r mode "") none rows

-- By whether the provider is known and the mode.
unfoldable pub create_checked :
    Bool → Option AiMode → Request → List Created → Option (Created × List Created)
create_checked false mode r rows = none
create_checked true none r rows = none
create_checked true (some mode) r rows = some (create_keyed r mode (key_of r.idempotency_key) rows)

-- `create_campaign`; `none` where it raises, for an unknown provider or an unknown mode.
unfoldable pub create_campaign :
    (String → Bool) → Request → List Created → Option (Created × List Created)
create_campaign is_provider r rows = create_checked (is_provider r.provider_slug) r.ai_mode r rows

-- The first row with a test, after a row that has it is added where there was none.
first_where-added :
    (p : Created → Bool) (rows : List Created) (new : Created)
    → first_where p rows ≡ none
    → p new ≡ true
    → first_where p (rows ++ (new ∷ [])) ≡ some new
first_where-added p [] new h e = rw e refl
first_where-added p (c ∷ rows) new h e = ground (arith, first_where-added p rows new)

matches_self :
    (r : Request) (mode : AiMode) (key : String)
    → matches r.provider_slug r.campaign_type key (new_campaign r mode key) ≡ true
matches_self r mode key = ground (
  arith,
  (eq_iff r.provider_slug r.provider_slug).1 refl,
  (eq_iff r.campaign_type r.campaign_type).1 refl,
  (eq_iff key key).1 refl,
)

get_or_create-again :
    (p q : Created → Bool) (new other : Created) (rows : List Created)
    → q ≡ p
    → p new ≡ true
    → get_or_create other
        (first_where q (get_or_create new (first_where p rows) rows).1)
        (get_or_create new (first_where p rows) rows).1
      ≡ get_or_create new (first_where p rows) rows
unfolding get_or_create
get_or_create-again p q new other rows same fits = elim (Option-cases (first_where p rows)) [
  | inl fresh ↦ rw (same, fresh, first_where-added p rows new fresh fits) refl
  | inr (c, found) ↦ rw (same, found, found) refl
]

create_keyed-again :
    (r s : Request) (m n : AiMode) (key : String) (rows : List Created)
    → is_text key ≡ true
    → s.provider_slug ≡ r.provider_slug
    → s.campaign_type ≡ r.campaign_type
    → create_keyed s n key (create_keyed r m key rows).1 ≡ create_keyed r m key rows
unfolding create_keyed
create_keyed-again r s m n key rows text slug kind = rw text (
    get_or_create-again (matches r.provider_slug r.campaign_type key)
      (matches s.provider_slug s.campaign_type key) (new_campaign r m key) (new_campaign s n key)
      rows
      (ap (λ x. matches x s.campaign_type key) slug ∙ ap (λ x. matches r.provider_slug x key) kind)
      (matches_self r m key))

create_checked-made :
    (known : Bool) (mode : Option AiMode) (r : Request) (rows : List Created)
    (made : Created × List Created)
    → create_checked known mode r rows ≡ some made
    → (known ≡ true) × (m : AiMode) × (create_keyed r m (key_of r.idempotency_key) rows ≡ made)
unfolding create_checked
create_checked-made false mode r rows made e = absurd (cc)
create_checked-made true none r rows made e = absurd (cc)
create_checked-made true (some m) r rows made e = (refl, m, cc)

again_checked :
    (r s : Request) (m n : AiMode) (rows : List Created) (made : Created × List Created)
    → is_text (key_of r.idempotency_key) ≡ true
    → s.provider_slug ≡ r.provider_slug
    → s.campaign_type ≡ r.campaign_type
    → key_of s.idempotency_key ≡ key_of r.idempotency_key
    → create_keyed r m (key_of r.idempotency_key) rows ≡ made
    → create_checked true (some n) s made.1 ≡ some made
unfolding create_checked
again_checked r s m n rows made text slug kind key first =
    ap (λ k. some (create_keyed s n k made.1)) key
    ∙ ap (λ t. some (create_keyed s n (key_of r.idempotency_key) t.1)) (sym first)
    ∙ ap some (create_keyed-again r s m n (key_of r.idempotency_key) rows text slug kind ∙ first)

-- A request that creates a campaign under a key that is not empty, made again with the same provider,
-- type and key and whatever mode and parameters, gets the same row and leaves the table as it is.
pub create_campaign-again :
    (is_provider : String → Bool) (r s : Request) (n : AiMode) (rows after : List Created)
    (row : Created)
    → create_campaign is_provider r rows ≡ some (row, after)
    → is_text (key_of r.idempotency_key) ≡ true
    → s.provider_slug ≡ r.provider_slug
    → s.campaign_type ≡ r.campaign_type
    → key_of s.idempotency_key ≡ key_of r.idempotency_key
    → s.ai_mode ≡ some n
    → create_campaign is_provider s after ≡ some (row, after)
unfolding create_campaign
create_campaign-again is_provider r s n rows after row made text slug kind key mode =
    let (known, m, first) =
      create_checked-made (is_provider r.provider_slug) r.ai_mode r rows (row, after) made in
    ap (λ b. create_checked b s.ai_mode s after) (ap is_provider slug ∙ known)
    ∙ ap (λ o. create_checked true o s after) mode
    ∙ again_checked r s m n rows (row, after) text slug kind key first
