-- ===== src/Lock/Exclusion.antt =====
-- Contexts over one lock that run in any order.
use mathlib.Core.Path.{subst}
use alilu_os.Common.{ℕ, Bool, true, false, ◌==◌, if◌then◌else◌, ◌≡◌, ◌≢◌, refl, sym, ap, ◌∙◌, arith}
use alilu_os.Lock.{
  Mutex, new, compare_exchange_weak, deref_mut, drop, Pc, outside, spinning, holding, after_round,
  Move, call, round, change, leave,
}

-- The contexts over one lock.
pub record System (T : Type 0) : Type 0 where
  pub mutex : Mutex T
  pub pc : ℕ → Pc

abbrev pub update : (ℕ → Pc) → ℕ → Pc → ℕ → Pc
update pc i p j = if i == j then p else pc j

-- A step of the context `i`.
pub data Step {T : Type 0} (i : ℕ) (s : System T) : System T → Type 0 where
  pick :
      {m : Mutex T} {p : Pc}
      → Move s.mutex (s.pc i) m p
      → Step i s (record { mutex = m; pc = update s.pc i p })

abbrev pub init : {T : Type 0} → T → System T
init value = record { mutex = new value; pc = λ i. outside }

pub data Reach {T : Type 0} (value : T) : System T → Type 0 where
  start : Reach value (init value)
  later : {s t : System T} → Reach value s → (i : ℕ) → Step i s t → Reach value t

-- Nobody has the guard and the lock is free, or one context has it.
data Owned {T : Type 0} (s : System T) : Type 0 where
  nobody : s.mutex.locked ≡ false → ((i : ℕ) → s.pc i ≢ holding) → Owned s
  somebody :
      (h : ℕ)
      → s.mutex.locked ≡ true
      → s.pc h ≡ holding
      → ((i : ℕ) → s.pc i ≡ holding → i ≡ h)
      → Owned s

-- What an attempt to take the lock answers.
pub cew_busy :
    {T : Type 0} (spurious : Bool) (m : Mutex T)
    → m.locked ≡ true
    → compare_exchange_weak spurious m ≡ (false, m)
unfolding compare_exchange_weak
cew_busy true m h = refl
cew_busy false m h = ap (λ b. if b then (false, m) else (true, record m { locked = true })) h

pub cew_free :
    {T : Type 0} (m : Mutex T)
    → m.locked ≡ false
    → compare_exchange_weak false m ≡ (true, record m { locked = true })
unfolding compare_exchange_weak
cew_free m h = ap (λ b. if b then (false, m) else (true, record m { locked = true })) h

-- A context without the guard moves and does not get it.
waits-Owned :
    {T : Type 0} (s : System T) (i : ℕ) (p : Pc)
    → s.pc i ≢ holding
    → p ≢ holding
    → Owned s
    → Owned (record { mutex = s.mutex; pc = update s.pc i p })
waits-Owned s i p before after (nobody free none_holds) =
    nobody free (λ j h. ground (arith, none_holds j))
waits-Owned s i p before after (somebody h taken holds only) =
    let others : i ≢ h = λ e. before (ap s.pc e ∙ holds) in
    somebody h taken (ground arith) (λ j e. ground (arith, only j))

round-Owned :
    {T : Type 0} (s : System T) (i : ℕ) (spurious : Bool)
    → s.pc i ≡ spinning
    → Owned s
    → Owned (record {
      mutex = (compare_exchange_weak spurious s.mutex).1;
      pc = update s.pc i (after_round (compare_exchange_weak spurious s.mutex).0);
    })
unfolding compare_exchange_weak
round-Owned s i true e o = waits-Owned s i spinning (λ h. cc) (λ h. cc) o
round-Owned {T} s i false e (somebody h taken holds only) =
    subst
      (λ (r : Bool × Mutex T). Owned (record { mutex = r.1; pc = update s.pc i (after_round r.0) }))
      (sym (cew_busy false s.mutex taken))
      (waits-Owned s i spinning (λ h. cc) (λ h. cc) (somebody h taken holds only))
round-Owned {T} s i false e (nobody free none_holds) =
    subst
      (λ (r : Bool × Mutex T). Owned (record { mutex = r.1; pc = update s.pc i (after_round r.0) }))
      (sym (cew_free s.mutex free))
      (somebody i refl (ground arith) (λ j h. ground (arith, none_holds j)))

-- The context that holds is the one that has the guard.
leave-Owned :
    {T : Type 0} (s : System T) (i : ℕ)
    → s.pc i ≡ holding
    → Owned s
    → Owned (record { mutex = drop s.mutex; pc = update s.pc i outside })
leave-Owned s i e (nobody free none_holds) = absurd (none_holds i e)
leave-Owned s i e (somebody h taken holds only) =
    nobody refl (λ j g. ground (arith, only j, only i))

change-Owned :
    {T : Type 0} (s : System T) (i : ℕ) (f : T → T)
    → s.pc i ≡ holding
    → Owned s
    → Owned (record { mutex = deref_mut f s.mutex; pc = update s.pc i holding })
change-Owned s i f e (nobody free none_holds) = absurd (none_holds i e)
change-Owned s i f e (somebody h taken holds only) =
    somebody h taken (ground arith) (λ j g. ground (arith, only j, only i))

Move-Owned :
    {T : Type 0} (s : System T) (i : ℕ) {m : Mutex T} {p q : Pc}
    → s.pc i ≡ q
    → Move s.mutex q m p
    → Owned s
    → Owned (record { mutex = m; pc = update s.pc i p })
Move-Owned s i e call o = waits-Owned s i spinning (λ h. cc) (λ h. cc) o
Move-Owned s i e (round spurious) o = round-Owned s i spurious e o
Move-Owned s i e (change f) o = change-Owned s i f e o
Move-Owned s i e leave o = leave-Owned s i e o

Step-Owned : {T : Type 0} {i : ℕ} {s t : System T} → Step i s t → Owned s → Owned t
Step-Owned {i = i} {s = s} (pick move) o = Move-Owned s i refl move o

Reach-Owned : {T : Type 0} {value : T} {s : System T} → Reach value s → Owned s
Reach-Owned start = nobody refl (λ i h. cc)
Reach-Owned (later r i step) = Step-Owned step (Reach-Owned r)

-- Only the context that holds changes the value.
Move-value :
    {T : Type 0} {m m' : Mutex T} {p q : Pc} → Move m q m' p → q ≢ holding → m'.value ≡ m.value
unfolding compare_exchange_weak
Move-value call h = refl
Move-value {m = m} (round true) h = refl
Move-value {m = m} (round false) h = ground arith
Move-value (change f) h = absurd (h refl)
Move-value leave h = absurd (h refl)

Step-value :
    {T : Type 0} {k : ℕ} {s t : System T}
    → Step k s t
    → s.pc k ≢ holding
    → t.mutex.value ≡ s.mutex.value
Step-value (pick move) h = Move-value move h

Owned-alone :
    {T : Type 0} {s : System T} (i j : ℕ)
    → Owned s
    → s.pc i ≡ holding
    → s.pc j ≡ holding
    → (j ≡ i) × (s.mutex.locked ≡ true)
Owned-alone i j (nobody free none_holds) e g = absurd (none_holds i e)
Owned-alone i j (somebody h taken holds only) e g = (only j g ∙ sym (only i e), taken)

-- In whatever order the contexts run: two that have the guard at a time are the same one, the lock is
-- taken meanwhile, and a step of any other context leaves the value as it is.
pub holding-alone :
    {T : Type 0} {value : T} {s t : System T} (i j k : ℕ)
    → Reach value s
    → s.pc i ≡ holding
    → s.pc j ≡ holding
    → k ≢ i
    → Step k s t
    → (j ≡ i) × (s.mutex.locked ≡ true) × (t.mutex.value ≡ s.mutex.value)
holding-alone {s = s} i j k r e g other step =
    let (same, taken) = Owned-alone i j (Reach-Owned r) e g in
    let waits : s.pc k ≢ holding = λ h. other ((Owned-alone i k (Reach-Owned r) e h).0) in
    (same, taken, Step-value step waits)
