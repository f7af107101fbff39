-- ===== src/Sync/Mutex.antt =====
-- Any number of tasks that lock, try to lock and unlock one mutex, interleaved at every access to it.
use native.Mathlib.Decide.{ℕ_discrete}
use hexa_os_alpha_build.Base.{
  ℕ, ◌≡◌, refl, ◌≢◌, Bool, true, false, update, update_self, update_ne, ap, sym, ◌∙◌, if◌then◌else◌,
  ap-update,
}
use hexa_os_alpha_build.Sync.{
  MutexState, Place, outside, acquired, inside, releasing, test_and_set, lock_round, lock_end,
  mutex_trylock, unlock_owner, unlock_release,
}

pub record World : Type 0 where
  pub mutex : MutexState
  pub place : ℕ → Place

-- Any task that is not in the middle of a call may call `mutex_unlock`, which asks for no owner.
abbrev pub may_unlock : Place → Bool
may_unlock inside = true
may_unlock outside = true
may_unlock _ = false

pub data Step : World → World → Type 0 where
  locks :
      (w : World) (t : ℕ)
      → w.place t ≡ outside
      → Step w (record {
        mutex = (lock_round w.mutex).1;
        place = update w.place t (lock_round w.mutex).0;
      })
  enters :
      (w : World) (t : ℕ)
      → w.place t ≡ acquired
      → Step w (record { mutex = lock_end w.mutex; place = update w.place t inside })
  tries :
      (w : World) (t : ℕ)
      → w.place t ≡ outside
      → Step w (record {
        mutex = (mutex_trylock w.mutex).1;
        place = update w.place t (if (mutex_trylock w.mutex).0 then inside else outside);
      })
  leaves :
      (w : World) (t : ℕ)
      → may_unlock (w.place t) ≡ true
      → Step w (record { mutex = unlock_owner w.mutex; place = update w.place t releasing })
  frees :
      (w : World) (t : ℕ)
      → w.place t ≡ releasing
      → Step w (record { mutex = unlock_release w.mutex; place = update w.place t outside })

pub data Reach (w : World) : World → Type 0 where
  start : Reach w w
  then_step : {u v : World} → Reach w u → Step u v → Reach w v

-- A step that unlocks is taken by a task that is in the protected section.
unfoldable pub IsOwn : {w v : World} → Step w v → Type 0
IsOwn (leaves w t e) = w.place t ≡ inside
IsOwn (locks w t e) = Unit {0}
IsOwn (tries w t e) = Unit {0}
IsOwn (enters w t e) = Unit {0}
IsOwn (frees w t e) = Unit {0}

-- In the whole run, only a task in the protected section unlocks.
unfoldable pub AllOwn : {w v : World} → Reach w v → Type 0
unfolding IsOwn
AllOwn start = Unit {0}
AllOwn (then_step r s) = IsOwn s × AllOwn r

abbrev pub is_outside : Place → Bool
is_outside outside = true
is_outside _ = false

-- The mutex is free and all tasks are outside, or it is locked and all tasks but one are outside.
pub data IsExclusive (w : World) : Type 0 where
  free : w.mutex.locked ≡ false → ((t : ℕ) → w.place t ≡ outside) → IsExclusive w
  held :
      (h : ℕ)
      → w.mutex.locked ≡ true
      → is_outside (w.place h) ≡ false
      → ((t : ℕ) → t ≢ h → w.place t ≡ outside)
      → IsExclusive w

same_place :
    (w : World) (t : ℕ) (p : Place) (u : ℕ) → w.place t ≡ p → update w.place t p u ≡ w.place u
same_place w t p u e = ap-update (λ q. q) w.place t p (sym e) u

-- A task takes a mutex that is free.
taken :
    (w : World) (t : ℕ) (p : Place) (m : MutexState)
    → ((u : ℕ) → w.place u ≡ outside)
    → is_outside p ≡ false
    → m.locked ≡ true
    → IsExclusive (record { mutex = m; place = update w.place t p })
taken w t p m all out l =
    held t l (rw (update_self w.place t p) out)
      (λ u ne. update_ne w.place t p u (λ e. ne (sym e)) ∙ all u)

-- A task that is outside stays there.
stays :
    (w : World) (t : ℕ) (m : MutexState)
    → w.place t ≡ outside
    → m.locked ≡ w.mutex.locked
    → IsExclusive w
    → IsExclusive (record { mutex = m; place = update w.place t outside })
stays w t m e l (free f all) = free (l ∙ f) (λ u. same_place w t outside u e ∙ all u)
stays w t m e l (held h f out all) =
    held h (l ∙ f) (ap is_outside (same_place w t outside h e) ∙ out)
      (λ u ne. same_place w t outside u e ∙ all u ne)

-- The holder moves on to another place that is not outside.
moves :
    (w : World) (t : ℕ) (p : Place) (m : MutexState)
    → is_outside (w.place t) ≡ false
    → is_outside p ≡ false
    → m.locked ≡ w.mutex.locked
    → IsExclusive w
    → IsExclusive (record { mutex = m; place = update w.place t p })
moves w t p m e out l (free f all) = absurd (cc (e, ap is_outside (all t)))
moves w t p m e out l (held h f out' all) = elim (ℕ_discrete t h) [
  | yes q ↦
      held t (l ∙ f) (rw (update_self w.place t p) out)
        (λ u ne. update_ne w.place t p u (λ e'. ne (sym e')) ∙ all u (λ e'. ne (e' ∙ sym q)))
  | no ne ↦ absurd (cc (e, ap is_outside (all t ne)))
]

-- The holder leaves, and the mutex is free.
released :
    (w : World) (t : ℕ) (m : MutexState)
    → is_outside (w.place t) ≡ false
    → m.locked ≡ false
    → IsExclusive w
    → IsExclusive (record { mutex = m; place = update w.place t outside })
released w t m e l (free f all) = absurd (cc (e, ap is_outside (all t)))
released w t m e l (held h f out all) = free l (λ u. elim (ℕ_discrete t u) [
  | yes q ↦ rw (← q) (update_self w.place t outside)
  | no ne ↦ update_ne w.place t outside u ne ∙ elim (ℕ_discrete t h) [
    | yes q ↦ all u (λ e'. ne (q ∙ sym e'))
    | no ne' ↦ absurd (cc (e, ap is_outside (all t ne')))
  ]
])

locks-IsExclusive :
    (w : World) (t : ℕ)
    → w.place t ≡ outside
    → IsExclusive w
    → IsExclusive
        (record { mutex = (lock_round w.mutex).1; place = update w.place t (lock_round w.mutex).0 })
unfolding lock_round test_and_set
locks-IsExclusive w t e (free f all) =
    rw f (taken w t acquired (record w.mutex { locked = true }) all refl refl)
locks-IsExclusive w t e (held h f out all) =
    rw f (stays w t (record w.mutex { locked = true }) e (sym f) (held h f out all))

tries-IsExclusive :
    (w : World) (t : ℕ)
    → w.place t ≡ outside
    → IsExclusive w
    → IsExclusive (record {
      mutex = (mutex_trylock w.mutex).1;
      place = update w.place t (if (mutex_trylock w.mutex).0 then inside else outside);
    })
unfolding mutex_trylock test_and_set
tries-IsExclusive w t e (free f all) =
    rw f (taken w t inside (record w.mutex { locked = true }) all refl refl)
tries-IsExclusive w t e (held h f out all) =
    rw f (stays w t (record w.mutex { locked = true }) e (sym f) (held h f out all))

Step-IsExclusive : {w v : World} (s : Step w v) → IsOwn s → IsExclusive w → IsExclusive v
unfolding lock_end unlock_owner unlock_release IsOwn
Step-IsExclusive (locks w t e) o x = locks-IsExclusive w t e x
Step-IsExclusive (tries w t e) o x = tries-IsExclusive w t e x
Step-IsExclusive (enters w t e) o x =
    moves w t inside (lock_end w.mutex) (ap is_outside e) refl refl x
Step-IsExclusive (leaves w t e) o x =
    moves w t releasing (unlock_owner w.mutex) (ap is_outside o) refl refl x
Step-IsExclusive (frees w t e) o x = released w t (unlock_release w.mutex) (ap is_outside e) refl x

Reach-IsExclusive : {w v : World} (r : Reach w v) → AllOwn r → IsExclusive w → IsExclusive v
unfolding AllOwn
Reach-IsExclusive start o x = x
Reach-IsExclusive (then_step r s) o x = Step-IsExclusive s o.0 (Reach-IsExclusive r o.1 x)

alone : (w : World) (t u : ℕ) → IsExclusive w → w.place t ≡ inside → w.place u ≡ inside → t ≡ u
alone w t u (free f all) e e' = absurd (cc (ap is_outside e, ap is_outside (all t)))
alone w t u (held h f out all) e e' = elim (ℕ_discrete t h) [
  | no ne ↦ absurd (cc (ap is_outside e, ap is_outside (all t ne)))
  | yes q ↦ elim (ℕ_discrete u h) [
    | yes q' ↦ q ∙ sym q'
    | no ne ↦ absurd (cc (ap is_outside e', ap is_outside (all u ne)))
  ]
]

-- However any number of tasks lock, try to lock and unlock the mutex, interleaved at every access: where
-- a task unlocks it only from within the protected section, which `mutex_unlock` does not check, and
-- the run starts with the mutex free and all tasks outside, or held by one task alone, no two tasks are
-- in the protected section at once.
pub mutual_exclusion :
    {w v : World} (t u : ℕ)
    → (r : Reach w v) → AllOwn r
    → IsExclusive w
    → v.place t ≡ inside
    → v.place u ≡ inside
    → t ≡ u
mutual_exclusion {w} {v} t u r o x = alone v t u (Reach-IsExclusive r o x)
