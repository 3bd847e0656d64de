-- ===== src/Catalogue/Redirects/Reaches.antt =====
-- Chains of redirects: how many hops an entity is away from the canonical one.
use noshiro_db_backend.Base.{
  ℕ, zero, suc, ◌≤◌, ◌<◌, ◌≡◌, refl, sym, ap, ◌∙◌, Option, none, some, arith,
}
use native.Mathlib.Decide.{dec_le}

module _ (next : ℕ → Option ℕ) where
  -- `e` reaches the canonical `r` in `d` hops.
  abbrev pub Reaches : ℕ → ℕ → ℕ → Type 0
  Reaches zero e r = (e ≡ r) × (next e ≡ none)
  Reaches (suc d) e r = (t : ℕ) × (next e ≡ some t) × Reaches d t r

  -- Every chain ends.
  abbrev pub Ends : Type 0
  Ends = (e : ℕ) → (d : ℕ) × (r : ℕ) × Reaches d e r

  -- Every chain ends within fewer than `k` hops.
  abbrev pub EndsWithin : ℕ → Type 0
  EndsWithin k = (e : ℕ) → (d : ℕ) × (r : ℕ) × (d < k) × Reaches d e r

  pub Reaches-canonical : (d e r : ℕ) → Reaches d e r → next r ≡ none
  Reaches-canonical zero e r h = rw⁻¹ h.0 h.1
  Reaches-canonical (suc d) e r (t, h, k) = Reaches-canonical d t r k

  -- The number of hops and the canonical entity are determined.
  pub Reaches-same : (d d' e r r' : ℕ) → Reaches d e r → Reaches d' e r' → (d ≡ d') × (r ≡ r')
  Reaches-same zero zero e r r' h k = (refl, sym h.0 ∙ k.0)
  Reaches-same zero (suc d') e r r' h (t, k, l) = absurd (cc)
  Reaches-same (suc d) zero e r r' (t, h, l) k = absurd (cc)
  Reaches-same (suc d) (suc d') e r r' (t, h, l) (t', h', l') =
      let same : t ≡ t' = cc in
      let rest : (d ≡ d') × (r ≡ r') = Reaches-same d d' t r r' l (rw same l') in
      (ap suc rest.0, rest.1)

  -- A canonical entity reaches itself only.
  Reaches-self : (d e r : ℕ) → next e ≡ none → Reaches d e r → (d ≡ 0) × (e ≡ r)
  Reaches-self zero e r h k = (refl, k.0)
  Reaches-self (suc d) e r h (t, k, l) = absurd (cc)

  -- On the way every smaller number of hops is met.
  pub Reaches-between : (m d e r : ℕ) → m ≤ d → Reaches d e r → (y : ℕ) × Reaches m y r
  Reaches-between m zero e r h k = let same : m ≡ 0 = omega arith in (e, rw same k)
  Reaches-between m (suc d) e r h (t, k, l) = elim (dec_le m d) [
    | yes le ↦ Reaches-between m d t r le l
    | no gt ↦ let same : m ≡ suc d = omega arith in (e, rw same (t, k, l))
  ]
