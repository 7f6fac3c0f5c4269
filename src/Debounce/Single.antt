-- ===== src/Debounce/Single.antt =====
-- At most one call waits behind the debounced callback, the latest one.
use woodgate.Common.{◌==◌, ==_refl, ℕ, ◌≡◌, ap, true, false, none, some, [], ◌∷◌, inl, inr, ◌⊎◌}
use woodgate.Debounce.{Timers, cancel, debounce, elapse}

module _ {ℓ} {A : Type ℓ} where
  abbrev pub IsQuiet : Timers A → Type ℓ
  IsQuiet t = t.waiting ≡ []

  -- The call with this argument waits, and no other.
  abbrev pub IsArmed : Timers A → A → Type ℓ
  IsArmed t arg = t.waiting ≡ (t.debounce_timer, arg) ∷ []

  abbrev pub IsSingle : Timers A → Type ℓ
  IsSingle t = IsQuiet t ⊎ ((arg : A) × IsArmed t arg)

  pub cancel-IsQuiet : (t : Timers A) → IsSingle t → IsQuiet (cancel t)
  unfolding cancel
  cancel-IsQuiet t (inl quiet) = rw quiet
  cancel-IsQuiet t (inr (arg, armed)) = rw (armed, ==_refl t.debounce_timer)

  pub debounce-IsArmed : (t : Timers A) (arg : A) → IsSingle t → IsArmed (debounce t arg) arg
  unfolding debounce cancel
  debounce-IsArmed t arg single = ap (λ w. (t.next_id, arg) ∷ w) (cancel-IsQuiet t single)

  pub elapse_quiet : (t : Timers A) (id : ℕ) → IsQuiet t → elapse t id ≡ (t, none)
  unfolding elapse
  elapse_quiet t id quiet = rw quiet

  pub elapse_armed :
      (t : Timers A) (id : ℕ) (arg : A)
      → IsArmed t arg
      → ((t.debounce_timer == id) ≡ true)
      → elapse t id ≡ (record t { waiting = [] }, some arg)
  unfolding elapse
  elapse_armed t id arg armed same = rw (armed, same)

  pub elapse_other :
      (t : Timers A) (id : ℕ) (arg : A)
      → IsArmed t arg
      → ((t.debounce_timer == id) ≡ false)
      → elapse t id ≡ (t, none)
  unfolding elapse
  elapse_other t id arg armed differ = rw (armed, differ)
