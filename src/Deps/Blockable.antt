-- ===== src/Deps/Blockable.antt =====
-- What it means that a tool cannot be provided, and the chain of dependencies that shows it.
use tools_installer.Base.{
  ℕ, zero, suc, ◌≤◌, String, ◌≡◌, refl, sym, subst, Bool, true, false, ◌⊎◌, inl, inr, some, List,
  [], ◌∷◌, arith, ◌==◌, eq_iff, Bool-cases, contains,
}
use tools_installer.Model.{Tool}
use tools_installer.Deps.{by_id}
use tools_installer.Deps.Lookup.{by_id-id}

module _ (catalog : List Tool) where
  -- The tool is the one that the catalog lists under its id.
  abbrev pub Registered : Tool → Type 0
  Registered t = by_id catalog t.id ≡ some t

  pub Registered-by_id : (d : String) (u : Tool) → by_id catalog d ≡ some u → Registered u
  Registered-by_id d u h = cc (by_id-id catalog d u h)

  pub Registered-eq : (t u : Tool) → Registered t → Registered u → t.id ≡ u.id → t ≡ u
  Registered-eq t u ht hu e = cc

  same_tool : (t u : Tool) → Registered t → Registered u → (t.id == u.id) ≡ true → u ≡ t
  same_tool t u ht hu e = Registered-eq u t hu ht (sym ((eq_iff t.id u.id).0 e))

  module _ (available is_installed : Tool → Bool) where
    -- Not installed, and unavailable itself or by some dependency.
    pub data Blockable : Tool → Type 0 where
      unavailable : (t : Tool) → is_installed t ≡ false → available t ≡ false → Blockable t
      by_dependency :
          (t : Tool) (d : String) (u : Tool)
          → is_installed t ≡ false
          → contains d t.requires ≡ true
          → by_id catalog d ≡ some u
          → Blockable u
          → Blockable t

    abbrev pub Free : List String → Tool → Type 0
    Free avoid t = (is_installed t ≡ false) × (contains t.id avoid ≡ false)

    -- A chain of `n` dependencies from `t` to an unavailable tool, outside `avoid`.
    abbrev pub Chain : List String → ℕ → Tool → Type 0
    Chain avoid zero t = Free avoid t × (available t ≡ false)
    Chain avoid (suc n) t =
        Free avoid t
        × ((d : String) × (u : Tool) × (contains d t.requires ≡ true)
            × (by_id catalog d ≡ some u)
            × Chain avoid n u)

    pub Chain-Free : (avoid : List String) (n : ℕ) (t : Tool) → Chain avoid n t → Free avoid t
    Chain-Free avoid zero t c = c.0
    Chain-Free avoid (suc n) t c = c.0

    pub Blockable-Chain : {t : Tool} → Blockable t → (n : ℕ) × Chain [] n t
    unfolding contains
    Blockable-Chain (unavailable t a b) = (0, ((a, refl), b))
    Blockable-Chain (by_dependency t d u a c e b) =
        let (n, chain) = Blockable-Chain b in (suc n, ((a, refl), (d, u, c, e, chain)))

    Free-cons :
        (avoid : List String) (x : String) (u : Tool)
        → Free avoid u
        → (x == u.id) ≡ false
        → Free (x ∷ avoid) u
    unfolding contains
    Free-cons avoid x u f ne = (f.0, ground arith)

    -- A chain from `u` misses `t`, or a part of it, no longer, starts there.
    shorten :
        (avoid : List String) (t u : Tool) (n : ℕ)
        → Registered t
        → Registered u
        → Chain avoid n u
        → Chain (t.id ∷ avoid) n u ⊎ ((m : ℕ) × (m ≤ n) × Chain avoid m t)
    shorten avoid t u zero ht hu c = elim (Bool-cases (t.id == u.id)) [
      | inl same ↦ inr (0, omega arith, subst (Chain avoid 0) (same_tool t u ht hu same) c)
      | inr other ↦ inl (Free-cons avoid t.id u c.0 other, c.1)
    ]
    shorten avoid t u (suc n) ht hu c = elim (Bool-cases (t.id == u.id)) [
      | inl same ↦
          inr (suc n, omega arith, subst (Chain avoid (suc n)) (same_tool t u ht hu same) c)
      | inr other ↦ elim (shorten avoid t c.1.1 n ht (Registered-by_id c.1.0 c.1.1 c.1.3) c.1.4) [
        | inl r ↦ inl (Free-cons avoid t.id u c.0 other, (c.1.0, c.1.1, c.1.2, c.1.3, r))
        | inr (m, le, r) ↦ inr (m, omega arith, r)
      ]
    ]

    abbrev Inner : List String → Tool → ℕ → Type 0
    Inner avoid t n =
        (d : String) × (u : Tool) × (k : ℕ) × (k ≤ n)
        × (contains d t.requires ≡ true)
        × (by_id catalog d ≡ some u)
        × Chain (t.id ∷ avoid) k u

    -- A chain from `t` that is not at its end goes on without `t`.
    pub Chain-Inner :
        (avoid : List String) (t : Tool) (bound n : ℕ)
        → n ≤ bound
        → Registered t
        → Chain avoid n t
        → (available t ≡ false) ⊎ Inner avoid t n
    Chain-Inner avoid t bound zero h ht c = inl c.1
    Chain-Inner avoid t zero (suc n) h ht c = absurd (omega arith)
    Chain-Inner avoid t (suc bound) (suc n) h ht c =
        elim (shorten avoid t c.1.1 n ht (Registered-by_id c.1.0 c.1.1 c.1.3) c.1.4) [
          | inl r ↦ inr (c.1.0, c.1.1, n, omega arith, c.1.2, c.1.3, r)
          | inr (m, le, r) ↦ elim (Chain-Inner avoid t bound m (omega arith) ht r) [
            | inl a ↦ inl a
            | inr (d, u, k, le', cd, ed, r') ↦ inr (d, u, k, omega arith, cd, ed, r')
          ]
        ]
