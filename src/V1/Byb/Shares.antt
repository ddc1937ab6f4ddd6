-- ===== src/V1/Byb/Shares.antt =====
-- The rounds of the loop of `calcTransferBybChromo` of abciapp_v1.0/contract/tokenbyb/tokenbyb.go:
-- what each does to the lists, to their totals and to the number of their entries.
use bcbchain.Base.{
  ℕ, suc, ◌+◌, ◌-◌, ◌*◌, ◌≤◌, ◌<◌, true, false, some, List, ◌∷◌, ◌≡◌, ◌⊎◌, inl, inr, refl, subst,
  length, All, arith, Bool-cases, ◌==◌,
}
use bcbchain.Base.Int.{ℤ, pos, ◌+ℤ◌, ◌-ℤ◌, ltb_ℤ, eqb_ℤ}
use bcbchain.V1.Byb.Chromos.{
  BybBalance, SafeMath, trans_value, keep_rest, add_sender, add_both, calc_transfer_loop,
}
use bcbchain.V1.Byb.Rounds.{HasUnits, units, count_nonzero, GivesShare}
use bcbchain.V1.Byb.Entries.{SubChromos, pos_sub, sub_both, sub_skip}

-- One round of the loop.
module _ (M : SafeMath) (value total trans : ℤ) (c : BybBalance) (cs : List BybBalance) where
  pub loop_zero :
      eqb_ℤ (c.value) (pos 0) ≡ true
      → calc_transfer_loop M value total trans (c ∷ cs) ≡ calc_transfer_loop M value total trans cs
  unfolding calc_transfer_loop
  loop_zero e = rw (calc_transfer_loop, e) refl

  pub loop_keep :
      eqb_ℤ (c.value) (pos 0) ≡ false
      → eqb_ℤ (value -ℤ trans) (pos 0) ≡ true
      → calc_transfer_loop M value total trans (c ∷ cs)
        ≡ add_sender c (calc_transfer_loop M value total trans cs)
  unfolding calc_transfer_loop
  loop_keep e z = rw (calc_transfer_loop, e, z) refl

  pub loop_give :
      (given : ℤ)
      → eqb_ℤ (c.value) (pos 0) ≡ false
      → eqb_ℤ (value -ℤ trans) (pos 0) ≡ false
      → ltb_ℤ (value -ℤ trans) (pos 0) ≡ false
      → trans_value M value total (value -ℤ trans) (c.value) ≡ some given
      → calc_transfer_loop M value total trans (c ∷ cs)
        ≡ add_both c given (calc_transfer_loop M value total (trans +ℤ given) cs)
  unfolding calc_transfer_loop
  loop_give given e z p g = rw (calc_transfer_loop, e, z, p, g) refl

pub units_cons :
    (c : BybBalance) (cs : List BybBalance) (n : ℕ)
    → c.value ≡ pos n
    → units (c ∷ cs) ≡ n + units cs
unfolding units
units_cons c cs n e = rw e refl

pub units_zero :
    (c : BybBalance) (cs : List BybBalance) → c.value ≡ pos 0 → units (c ∷ cs) ≡ units cs
units_zero c cs e = omega (arith, units_cons c cs 0 e)

pub count_zero :
    (c : BybBalance) (cs : List BybBalance)
    → c.value ≡ pos 0
    → count_nonzero (c ∷ cs) ≡ count_nonzero cs
unfolding count_nonzero
count_zero c cs e = rw e refl

pub count_suc :
    (c : BybBalance) (cs : List BybBalance) (n : ℕ)
    → c.value ≡ pos (suc n)
    → count_nonzero (c ∷ cs) ≡ suc (count_nonzero cs)
unfolding count_nonzero
count_suc c cs n e = rw e (ground arith)

abbrev pub given_entry : BybBalance → ℕ → BybBalance
given_entry c t = record { chromo = c.chromo; value = pos t }

-- What is left of an entry, in front of what is left of the others.
pub keep_none :
    (c : BybBalance) (ns : List BybBalance) (n : ℕ) → c.value ≡ pos n → keep_rest c (pos n) ns ≡ ns
unfolding keep_rest
keep_none c ns n e = rw (keep_rest, e, pos_sub n n (omega arith)) (ground arith)

pub keep_some :
    (c : BybBalance) (ns : List BybBalance) (n t : ℕ)
    → c.value ≡ pos n
    → t < n
    → keep_rest c (pos t) ns ≡ given_entry c (n - t) ∷ ns
unfolding keep_rest
keep_some c ns n t e h = rw (keep_rest, e, pos_sub n t (omega arith)) (ground arith)

pub rest_of :
    (c : BybBalance) (ns : List BybBalance) (n t : ℕ)
    → c.value ≡ pos n
    → t ≤ n
    → All HasUnits ns
    → (ns' : List BybBalance) × (keep_rest c (pos t) ns ≡ ns')
      × All HasUnits ns'
      × (units ns' + t ≡ n + units ns)
      × ((pay : List BybBalance) → SubChromos ns pay → SubChromos ns' (given_entry c t ∷ pay))
      × (((length ns' ≡ length ns) × (t ≡ n)) ⊎ ((length ns' ≡ suc (length ns)) × (t < n)))
rest_of c ns n t e h kept = elim (Bool-cases (t == n)) [
  | inl same ↦
      let eq : t ≡ n = ground arith in
      (ns, rw eq (keep_none c ns n e), kept, omega arith, (λ pay s. sub_skip s), inl (refl, eq))
  | inr less ↦
      let lt : t < n = ground arith in
      (
        given_entry c (n - t) ∷ ns,
        keep_some c ns n t e lt,
        ((refl, omega arith), kept),
        omega (arith, units_cons (given_entry c (n - t)) ns (n - t) refl),
        (λ pay s. sub_both refl s),
        inr (refl, lt),
      )
]

pub add_all :
    (value total own u p k : ℕ)
    → value * own ≤ total * own
    → value * u + k ≤ total * p + total * k
    → value * (own + u) + k ≤ total * (own + p) + total * k
add_all value total own u p k a h = grind arith

pub add_part :
    (value total own t u p k : ℕ)
    → suc (value * own) ≤ total * t + total
    → value * u + k ≤ total * p + total * k
    → value * (own + u) + suc k ≤ total * (t + p) + total * suc k
add_part value total own t u p k a h = grind arith

pub shares_cons :
    (value total trans own t u p k k' : ℕ)
    → GivesShare value total (value - trans) own t
    → ((k' ≡ k) × (t ≡ own)) ⊎ ((k' ≡ suc k) × (t < own))
    → (trans + t) + p ≤ value
    → trans < value
    → ((trans + t) + p ≡ value) ⊎ (value * u + k ≤ total * p + total * k)
    → (trans + (t + p) ≡ value) ⊎ (value * (own + u) + k' ≤ total * (t + p) + total * k')
shares_cons value total trans own t u p k k' share size bounded less (inl e) = inl (omega arith)
shares_cons value total trans own t u p k k' (inl e) size bounded less (inr h) = inl (omega arith)
shares_cons value total trans own t u p k k' (inr (inl (e, s))) (inl (same, _)) bounded less
      (inr h) =
    inr (rw (same, e) (add_all value total own u p k (subst (λ x. value * own ≤ total * x) e s) h))
shares_cons value total trans own t u p k k' (inr (inl (e, s))) (inr (_, lt)) bounded less (inr h) =
    absurd (omega arith)
shares_cons value total trans own t u p k k' (inr (inr (lt, s))) (inl (_, e)) bounded less (inr h) =
    absurd (omega arith)
shares_cons value total trans own t u p k k' (inr (inr (lt, s))) (inr (same, _)) bounded less
      (inr h) =
    inr (rw same (add_part value total own t u p k s h))

pub one_cons :
    (value trans t p k : ℕ)
    → 0 < t
    → ((trans + t) + p ≡ value) ⊎ (k ≤ p)
    → (trans + (t + p) ≡ value) ⊎ (suc k ≤ t + p)
one_cons value trans t p k h (inl e) = inl (omega arith)
one_cons value trans t p k h (inr e) = inr (omega arith)

pub sub_cons :
    {A B : Type 0} (value trans t p : ℕ)
    → (A → B)
    → ((trans + t) + p ≡ value) ⊎ A
    → (trans + (t + p) ≡ value) ⊎ B
sub_cons value trans t p f (inl e) = inl (omega arith)
sub_cons value trans t p f (inr a) = inr (f a)
