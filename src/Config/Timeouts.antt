-- ===== src/Config/Timeouts.antt =====
-- A configuration that is accepted lets a node start: the timeout of a stage can be calculated.
use sequins.Prelude.{
  ℤ, pos, negsuc, negated, ◌≡◌, refl, subst, inl, inr, ◌||◌, Text, Text_eq, text_eq, codes, [],
  Option, none, some, Result, ok, err, arith, ℕ, zero, suc, ◌*◌, ◌≤◌, ◌/◌, ◌<◌, Bool-cases,
  native_keys,
}
use native.Mathlib.Nat.{mod-add-div, mod-lt}
use sequins.Config.{
  Url, SequinsConfig, ConfigError, validate_config, check_source, check_local, check_compression,
  check_replication, stage_timeout, div, bad_replication,
}

-- The configuration is handed on, and its replication is positive.
pub record Accepted (c d : SequinsConfig) : Type 0 where
  pub same : c ≡ d
  factor : ℕ
  replicates : c.replication ≡ pos (suc factor)

module _ (c d : SequinsConfig) where
  check_replication-Accepted : check_replication c ≡ ok d → Accepted c d
  unfolding check_replication
  check_replication-Accepted = go c.replication refl
    where
      go :
          (r : ℤ)
          → c.replication ≡ r
          → ◌≡◌ {A = Result ConfigError SequinsConfig}
              (elim r [
                | pos zero ↦ err bad_replication
                | pos (suc n) ↦ ok c
                | negsuc n ↦ err bad_replication
              ])
              (ok d)
          → Accepted c d
      go (pos zero) e h = ground (arith, h)
      go (pos (suc n)) e h = record { same = ground (arith, h); factor = n; replicates = e }
      go (negsuc n) e h = ground (arith, h)

  check_compression-Accepted : check_compression c ≡ ok d → Accepted c d
  unfolding check_compression
  check_compression-Accepted h = check_replication-Accepted (ground (arith, h))

  check_local-Accepted : (parsed : Url) → check_local c parsed ≡ ok d → Accepted c d
  unfolding check_local
  check_local-Accepted parsed h = check_compression-Accepted (ground (arith, h))

  check_source-Accepted : (o : Option Url) → check_source c o ≡ ok d → Accepted c d
  unfolding check_source
  check_source-Accepted none h = ground (arith, h)
  check_source-Accepted (some parsed) h =
      elim (Bool-cases (text_eq parsed.scheme [] || text_eq parsed.scheme (codes "file"))) [
        | inl local ↦ check_local-Accepted parsed (ground (arith, h, local))
        | inr elsewhere ↦ check_compression-Accepted (ground (arith, h, elsewhere))
      ]

  pub validate_config-Accepted :
      (parse : Text → Option Url) → validate_config parse c ≡ ok d → Accepted c d
  unfolding validate_config
  validate_config-Accepted parse h = check_source-Accepted (parse c.source) (ground (arith, h))

-- `stage` is the share of one of `n` stages: the largest of which `n` fit in the timeout, or, if that
-- is negative, in its absolute value.
unfoldable pub SharesOut : ℕ → ℤ → ℤ → Type 0
SharesOut n (pos t) stage = (k : ℕ) × (stage ≡ pos k) × (n * k ≤ t) × (t < n * suc k)
SharesOut n (negsuc t) stage = (k : ℕ) × (stage ≡ negated k) × (n * k ≤ suc t) × (suc t < n * suc k)

quotient_bounds : (t m : ℕ) → (suc m * (t / suc m) ≤ t) × (t < suc m * suc (t / suc m))
quotient_bounds t m =
    let positive : 0 < suc m = omega arith in
    (omega (arith, mod-add-div t (suc m)), omega (arith, mod-add-div t (suc m), mod-lt t positive))

div-SharesOut :
    (t : ℤ) (m : ℕ) → (stage : ℤ) × (div t (pos (suc m)) ≡ some stage) × SharesOut (suc m) t stage
unfolding div SharesOut
div-SharesOut (pos t) m =
    let (fits, largest) = quotient_bounds t m in (_, refl, (t / suc m, refl, fits, largest))
div-SharesOut (negsuc t) m =
    let (fits, largest) = quotient_bounds (suc t) m in
    (_, refl, (suc t / suc m, refl, fits, largest))

-- If a configuration is accepted, and it does not set the timeout of a stage, then its replication is
-- positive, so the calculation of that timeout is no division by zero; and the result is the
-- largest of which as many as there are replicas fit in the timeout of the whole, with the
-- sign of that timeout, which may be negative.
pub validate_config-stage_timeout :
    (parse : Text → Option Url) (c d : SequinsConfig)
    → validate_config parse c ≡ ok d
    → d.proxy_stage_timeout ≡ pos 0
    → (r : ℕ) × (stage : ℤ) × (d.replication ≡ pos (suc r))
      × (stage_timeout d ≡ some stage)
      × SharesOut (suc r) d.proxy_timeout stage
unfolding stage_timeout
validate_config-stage_timeout parse c d h unset =
    let a : Accepted c d = validate_config-Accepted c d parse h in
    let replicates : d.replication ≡ pos (suc a.factor) =
      subst (λ (x : SequinsConfig). x.replication ≡ pos (suc a.factor)) a.same a.replicates in
    let (stage, divides, shares) = div-SharesOut d.proxy_timeout a.factor in
    (a.factor, stage, replicates, rw (unset, replicates) divides, shares)
